-- ===== src/Rows/RoundTrip.antt =====
-- A result whose values were sent by `send` is received back.
use ozo.Prelude.{
  ℕ, suc, ◌+◌, ◌^◌, ◌<◌, ◌≡◌, refl, ap, sym, ◌∙◌, arith, List, [], ◌∷◌, ◌++◌, some, ==_self,
  append-nil, append_assoc, length,
}
use ozo.Prelude.Result.{ok}
use ozo.Io.Types.{Ty, El, Els, init, init_members, Members, end, member}
use ozo.Io.OidMap.{OidMap, IsOidMap, type_oid}
use ozo.Io.SizeOf.{size_of}
use ozo.Io.Send.{send, fields_number}
use ozo.Io.Fits.{Fits}
use ozo.Io.RoundTrip.{recv-send}
use ozo.Rows.{PgResult, Coordinates, IsPgResult, value_oid, value_data, advance_col, add_int}
use ozo.Rows.Visit.{at_row, from, rows_lem, add_int_small}
use ozo.Rows.Access.{at_cell, row_size_lem, find-cell, find-equal_value}
use ozo.Rows.Receive.{
  Fields, members, RowType, single, sequence, structure, ElRow, init_row, incoming_size, recv_value,
  recv_columns, recv_fields, recv_row, insert_rows, recv_result,
}

-- A value of the result is what `send` makes of an object that fits the wire format.
abbrev pub Carries : PgResult → OidMap → (t : Ty) → Coordinates → El t → Type 0
Carries res oids t c v =
    Fits t v
    × (value_oid res c ≡ type_oid oids t)
    × (incoming_size res c ≡ size_of t v)
    × (value_data res c ≡ send oids t v)

abbrev pub CarriesColumns : PgResult → OidMap → (ms : Members) → ℕ → ℕ → Els ms → Type 0
CarriesColumns res oids end i j vs = Unit {0}
CarriesColumns res oids (member t ms) i j vs =
    Carries res oids t (at_cell i j) vs.0 × CarriesColumns res oids ms i (suc j) vs.1

abbrev pub CarriesFields : PgResult → OidMap → (fs : Fields) → ℕ → Els (members fs) → Type 0
CarriesFields res oids [] i vs = Unit {0}
CarriesFields res oids (f ∷ fs) i vs =
    ((j : ℕ) × (res.pq_fnumber f.0 ≡ some j) × Carries res oids f.1 (at_cell i j) vs.0)
    × CarriesFields res oids fs i vs.1

abbrev pub CarriesRow : PgResult → OidMap → (r : RowType) → ℕ → ElRow r → Type 0
CarriesRow res oids (single t) i v = (res.pq_nfields ≡ 1) × Carries res oids t (at_row i) v
CarriesRow res oids (sequence ms) i v =
    (fields_number ms ≡ res.pq_nfields) × CarriesColumns res oids ms i 0 v
CarriesRow res oids (structure fs) i v =
    (fields_number (members fs) ≡ res.pq_nfields) × CarriesFields res oids fs i v

abbrev pub CarriesRows : PgResult → OidMap → (r : RowType) → ℕ → List (ElRow r) → Type 0
CarriesRows res oids r i [] = Unit {0}
CarriesRows res oids r i (v ∷ vs) = CarriesRow res oids r i v × CarriesRows res oids r (suc i) vs

recv_value-carried :
    (res : PgResult) (oids : OidMap) (t : Ty) (c : Coordinates) (v : El t)
    → IsOidMap oids
    → Carries res oids t c v
    → recv_value res oids t c (init t) ≡ ok v
unfolding recv_value
recv_value-carried res oids t c v m h =
    rw (h.1, h.2, h.3, sym (append-nil (send oids t v)), recv-send oids t v [] m h.0) refl

recv_columns-carried :
    (res : PgResult) (oids : OidMap) (ms : Members) (i j : ℕ) (vs : Els ms)
    → IsOidMap oids
    → j + fields_number ms < 2 ^ 31
    → CarriesColumns res oids ms i j vs
    → recv_columns res oids ms (at_cell i j) (init_members ms) ≡ ok vs
unfolding recv_columns init_members fields_number advance_col
recv_columns-carried res oids end i j vs m b h = refl
recv_columns-carried res oids (member t ms) i j vs m b h =
    let next : add_int j 1 ≡ suc j = add_int_small j 1 (omega (arith, b)) ∙ omega arith in
    rw
      (
        recv_value-carried res oids t (at_cell i j) vs.0 m h.0,
        next,
        recv_columns-carried res oids ms i (suc j) vs.1 m (omega (arith, b)) h.1,
      )
      refl

recv_fields-carried :
    (res : PgResult) (oids : OidMap) (fs : Fields) (i : ℕ) (vs : Els (members fs))
    → IsOidMap oids
    → IsPgResult res
    → CarriesFields res oids fs i vs
    → recv_fields res oids fs (at_row i) (init_members (members fs)) ≡ ok vs
unfolding recv_fields init_members
recv_fields-carried res oids [] i vs m p h = refl
recv_fields-carried res oids (f ∷ fs) i vs m p h =
    rw
      (
        find-equal_value res f.0 i (some h.0.0) p h.0.1,
        find-cell res f.0 i h.0.0 p h.0.1,
        recv_value-carried res oids f.1 (at_cell i h.0.0) vs.0 m h.0.2,
        recv_fields-carried res oids fs i vs.1 m p h.1,
      )
      refl

recv_row-carried :
    (res : PgResult) (oids : OidMap) (r : RowType) (i : ℕ) (v : ElRow r)
    → IsOidMap oids
    → IsPgResult res
    → CarriesRow res oids r i v
    → recv_row res oids r (at_row i) (init_row r) ≡ ok v
unfolding recv_row init_row
recv_row-carried res oids (single t) i v m p h =
    rw (row_size_lem res p, recv_value-carried res oids t (at_row i) v m h.1, h.0) refl
recv_row-carried res oids (sequence ms) i v m p h =
    rw
      (
        row_size_lem res p,
        recv_columns-carried res oids ms i 0 v m (omega (arith, h.0, p.0)) h.1,
        h.0,
        ==_self res.pq_nfields,
      )
      refl
recv_row-carried res oids (structure fs) i v m p h =
    rw
      (row_size_lem res p, recv_fields-carried res oids fs i v m p h.1, h.0, ==_self res.pq_nfields)
      refl

insert_rows-carried :
    (res : PgResult) (oids : OidMap) (r : RowType) (i : ℕ) (vs container : List (ElRow r))
    → IsOidMap oids
    → IsPgResult res
    → CarriesRows res oids r i vs
    → insert_rows res oids r (from (length vs) i) container ≡ ok (container ++ vs)
unfolding insert_rows
insert_rows-carried res oids r i [] container m p h = ap ok (sym (append-nil container))
insert_rows-carried res oids r i (v ∷ vs) container m p h =
    rw
      (
        recv_row-carried res oids r i v m p h.0,
        insert_rows-carried res oids r (suc i) vs (container ++ v ∷ []) m p h.1,
        append_assoc container (v ∷ []) vs,
      )
      refl

-- A result of libpq with a row for each object of a list, where each value of a row is what
-- `send` makes of the object's part for its column, which fits the wire format (a structure's
-- columns are found by their names, in any order), is received as exactly these objects, in
-- order, behind what the container already holds.
pub recv_result-sent :
    (res : PgResult) (oids : OidMap) (r : RowType) (vs container : List (ElRow r))
    → IsOidMap oids
    → IsPgResult res
    → res.pq_ntuples ≡ length vs
    → CarriesRows res oids r 0 vs
    → recv_result res oids r container ≡ ok (container ++ vs)
unfolding recv_result
recv_result-sent res oids r vs container m p n h =
    rw (rows_lem res p ∙ ap (λ k. from k 0) n) (insert_rows-carried res oids r 0 vs container m p h)
