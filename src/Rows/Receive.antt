-- ===== src/Rows/Receive.antt =====
-- include/ozo/io/recv.h: receiving a value, a row and a whole result through the proxies of Rows.
use ozo.Prelude.{
  ℕ, zero, suc, not, List, [], ◌∷◌, ◌++◌, Option, none, some, Bytes, ◌==◌, if◌then◌else◌,
}
use ozo.Prelude.Result.{Result, ok, err, ◌>>=◌, ◌>>◌, throw_if}
use ozo.Io.Types.{Ty, Members, end, member, El, Els, init, init_members}
use ozo.Io.Stream.{Failure}
use ozo.Io.OidMap.{OidMap}
use ozo.Io.SizeOf.{int32, null_state_size}
use ozo.Io.Send.{fields_number}
use ozo.Io.Recv.{recv}
use ozo.Rows.{
  PgResult, Coordinates, value_oid, value_size, value_data, is_null, row_size, row_end, find,
  equal_value, advance_col, advance_row, equal_row, result_begin, result_end, result_size,
}

-- The members of an adapted structure, with their names.
abbrev pub Fields : Type 0
Fields = List (Bytes × Ty)

abbrev pub members : Fields → Members
members [] = end
members (f ∷ fs) = member f.1 (members fs)

-- What a row is received into: an object that is no sequence of Boost.Fusion, a sequence (a
-- `std::tuple`), or an adapted structure.
pub data RowType : Type 0 where
  single : Ty → RowType
  sequence : Members → RowType
  structure : Fields → RowType

abbrev pub ElRow : RowType → Type 0
ElRow (single t) = El t
ElRow (sequence ms) = Els ms
ElRow (structure fs) = Els (members fs)

-- `value_type v{}`
unfoldable pub init_row : (r : RowType) → ElRow r
init_row (single t) = init t
init_row (sequence ms) = init_members ms
init_row (structure fs) = init_members (members fs)

-- `for (auto row : in)`: the rows between two iterators.
unfoldable pub visit : ℕ → Coordinates → Coordinates → List Coordinates
visit zero it last = []
visit (suc fuel) it last =
    let rest = visit fuel (advance_row 1 it) last in if equal_row it last then [] else it ∷ rest

-- The rows of a result: the loop takes one round for each.
unfoldable pub rows : PgResult → List Coordinates
rows res = visit (result_size res) result_begin (result_end res)

-- The size that `recv` is given for a value.
unfoldable pub incoming_size : PgResult → Coordinates → ℕ
incoming_size res v = if is_null res v then null_state_size else int32 (value_size res v)

module _ (res : PgResult) (oids : OidMap) where
  unfoldable pub recv_value : (t : Ty) → Coordinates → El t → Result Failure (El t)
  recv_value t v out = do
    (received, rest) ←
        recv oids t (some (value_oid res v)) (incoming_size res v) out (value_data res v)
    ok received

  -- The loop over a sequence, with its iterator on the values.
  unfoldable pub recv_columns : (ms : Members) → Coordinates → Els ms → Result Failure (Els ms)
  recv_columns end i out = ok tt
  recv_columns (member t ms) i out = do
    v ← recv_value t i out.0
    vs ← recv_columns ms (advance_col 1 i) out.1
    ok (v, vs)

  -- The loop over the members of a structure, found by their names.
  unfoldable pub recv_fields :
      (fs : Fields) → Coordinates → Els (members fs) → Result Failure (Els (members fs))
  recv_fields [] first out = ok tt
  recv_fields (f ∷ fs) first out = do
    throw_if (equal_value (find res (f.0) first) (row_end res first)) Failure.no_column
    v ← recv_value (f.1) (find res (f.0) first) out.0
    vs ← recv_fields fs first out.1
    ok (v, vs)

  unfoldable pub recv_row : (r : RowType) → Coordinates → ElRow r → Result Failure (ElRow r)
  recv_row (single t) first out = do
    throw_if (not (row_size res == 1)) Failure.row_size
    recv_value t first out
  recv_row (sequence ms) first out = do
    throw_if (not (fields_number ms == row_size res)) Failure.row_size
    recv_columns ms first out
  recv_row (structure fs) first out = do
    throw_if (not (fields_number (members fs) == row_size res)) Failure.row_size
    recv_fields fs first out

  -- `recv_result` into an insert iterator, which is `std::back_inserter` here, so that the rows are
  -- added at the back: the container that the loop leaves.
  unfoldable pub insert_rows :
      (r : RowType) → List Coordinates → List (ElRow r) → Result Failure (List (ElRow r))
  insert_rows r [] container = ok container
  insert_rows r (row ∷ left) container = do
    v ← recv_row r row (init_row r)
    insert_rows r left (container ++ v ∷ [])

  unfoldable pub recv_result : (r : RowType) → List (ElRow r) → Result Failure (List (ElRow r))
  recv_result r container = insert_rows r (rows res) container

  -- `recv_result` into a forward iterator: the objects from it on. With fewer objects than rows the
  -- behaviour is undefined, which is `none`.
  unfoldable pub overwrite_rows :
      (r : RowType) → List Coordinates → List (ElRow r) → Option (Result Failure (List (ElRow r)))
  overwrite_rows r [] objects = some (ok objects)
  overwrite_rows r (row ∷ left) [] = none
  overwrite_rows r (row ∷ left) (out ∷ objects) =
      let rest = overwrite_rows r left objects in
      elim (recv_row r row out) [
        | err failure ↦ some (err failure)
        | ok v ↦ elim rest [ none ↦ none | some received ↦ some (do vs ← received; ok (v ∷ vs)) ]
      ]

  unfoldable pub overwrite_result :
      (r : RowType) → List (ElRow r) → Option (Result Failure (List (ElRow r)))
  overwrite_result r objects = overwrite_rows r (rows res) objects
