-- ===== src/Rows/Tests.antt =====
-- Results on which the theorems about rows are tried.
use ozo.Prelude.{
  ◌-◌, ℕ, zero, suc, ◌+◌, ◌≡◌, ◌^◌, refl, arith, List, [], ◌∷◌, ◌++◌, none, some, Bytes, false,
  ◌==◌, if◌then◌else◌, replicate, not,
}
use ozo.Prelude.Text.{codes, bytes_eq}
use ozo.Prelude.Result.{ok, err, ◌>>◌, ◌>>=◌, throw_if}
use ozo.Io.Endian.{raw, convert_to_big_endian, byte_order_swap}
use ozo.Io.Stream.{write_integral}
use ozo.Io.Types.{scalar, int4, text, nullable, init_members, scalar_oid}
use ozo.Io.OidMap.{type_oid}
use ozo.Io.SizeOf.{size_of, size_of_scalar}
use ozo.Io.Send.{send, send_scalar, fields_number}
use ozo.Io.Stream.{Failure}
use ozo.Rows.{
  PgResult, IsPgResult, value_oid, value_data, value_size, is_null, to_size, row_at, row_at_name,
  result_at, row_out_of_range,
}
use ozo.Rows.Visit.{at_row}
use ozo.Rows.Access.{at_cell, at-checks}
use ozo.Rows.Receive.{
  Fields, members, structure, ElRow, init_row, incoming_size, rows, recv_row, recv_result,
  overwrite_result,
}
use ozo.Rows.Columns.{recv_row-record, recv_record, row_of}
use ozo.Rows.RoundTrip.{CarriesRows, recv_result-sent}
use ozo.Rows.Overwrite.{overwrite_result-insert}
use ozo.Rows.Partial.{IsPrefix, outcome, recv_into, recv_into-IsPrefix}

abbrev person : Fields
person = (codes "id", scalar int4) ∷ (codes "name", nullable (scalar text)) ∷ []

-- Two rows, (7, "Ann") and (8, null), in the columns name and id.
abbrev value_at : ℕ → ℕ → Bytes
value_at zero zero = codes "Ann"
value_at (suc i) zero = []
value_at i (suc j) = 0 ∷ 0 ∷ 0 ∷ (7 + i) ∷ []

abbrev table : PgResult
table = record {
  pq_ftype = λ j. if j == 0 then 25 else 23;
  pq_fformat = λ j. 1;
  pq_getvalue = value_at;
  pq_getlength = λ i j. if j == 1 then 4 else if i == 0 then 3 else 0;
  pq_getisnull = λ i j. if j == 0 then not (i == 0) else false;
  pq_fnumber = λ name.
      if bytes_eq name (codes "name")
      then some 0
      else if bytes_eq name (codes "id")
      then some 1
      else none;
  pq_nfields = 2;
  pq_ntuples = 2;
}

table-IsPgResult : IsPgResult table
table-IsPgResult = (omega arith, omega arith, λ i j. ground arith, λ name i e. ground arith)

abbrev people : List (ElRow (structure person))
people = (7, (some (codes "Ann"), tt)) ∷ (8, (none, tt)) ∷ []

people-carried : CarriesRows table [] (structure person) 0 people
unfolding size_of size_of_scalar incoming_size is_null value_size to_size value_oid value_data send
    send_scalar type_oid scalar_oid bytes_eq fields_number write_integral raw convert_to_big_endian
    byte_order_swap
people-carried = (
  (
    refl,
    (
      (1, refl, (omega arith, refl, refl, refl)),
      ((0, refl, ((omega arith, omega arith), refl, refl, refl)), tt),
    ),
  ),
  (
    (refl, ((1, refl, (omega arith, refl, refl, refl)), ((0, refl, (tt, refl, refl, refl)), tt))),
    tt,
  ),
)

recv_result-sent_example : recv_result table [] (structure person) [] ≡ ok people
recv_result-sent_example =
    recv_result-sent table [] (structure person) people [] tt table-IsPgResult refl people-carried

recv_row-record_example :
    recv_row table [] (structure person) (at_row 1) (init_members (members person)) ≡ (
      throw_if false Failure.row_size
      >> recv_record [] person (row_of table 1) (init_members (members person)))
unfolding fields_number
recv_row-record_example =
    recv_row-record table [] person 1 (init_members (members person)) table-IsPgResult

at-checks_example :
    (result_at table (2 ^ 32 - 1) ≡ err row_out_of_range)
    × (row_at table 1 (at_row (2 ^ 32 - 1)) ≡ ok (at_cell (2 ^ 32 - 1) 1))
    × (row_at_name table (codes "id") (at_row (2 ^ 32 - 1)) ≡ ok (at_cell (2 ^ 32 - 1) 1))
unfolding bytes_eq
at-checks_example =
    at-checks table (2 ^ 32 - 1) 1 (codes "id") table-IsPgResult (omega arith) (omega arith)

overwrite_result-insert_example :
    overwrite_result table []
      (structure person)
      (replicate 2 (init_row (structure person)) ++ (9, (none, tt)) ∷ [])
    ≡ some (recv_result table [] (structure person) [] >>= λ vs. ok (vs ++ (9, (none, tt)) ∷ []))
overwrite_result-insert_example =
    overwrite_result-insert table [] (structure person) ((9, (none, tt)) ∷ []) table-IsPgResult

-- A structure whose name cannot be null: the second row of the table cannot be received into it.
abbrev named : Fields
named = (codes "id", scalar int4) ∷ (codes "name", scalar text) ∷ []

recv_into-IsPrefix_example :
    IsPrefix table [] (structure named) (rows table) [] (recv_into table [] (structure named) [])
    × (recv_result table [] (structure named) []
        ≡ outcome table [] (structure named) (recv_into table [] (structure named) []))
recv_into-IsPrefix_example = recv_into-IsPrefix table [] (structure named) []
