-- ===== src/Rows/Columns.antt =====
-- Receiving a row into a structure, against an abstract row: a finite map from names to values, with
-- no order of the columns.
use mathlib.Core.Option
use ozo.Prelude.{
  ℕ, ◌≡◌, refl, ◌∙◌, [], ◌∷◌, Option, none, some, Bytes, not, ◌==◌, Option-cases, inl, inr,
}
use ozo.Prelude.Result.{Result, ok, err, ◌>>=◌, ◌>>◌, throw_if}
use ozo.Io.Types.{Ty, El, Els}
use ozo.Io.Stream.{Failure}
use ozo.Io.OidMap.{OidMap}
use ozo.Io.Send.{fields_number}
use ozo.Io.Recv.{recv}
use ozo.Rows.{PgResult, IsPgResult, value_oid, value_data}
use ozo.Rows.Visit.{at_row}
use ozo.Rows.Access.{at_cell, row_size_lem, find-cell, find-equal_value}
use ozo.Rows.Receive.{Fields, members, structure, incoming_size, recv_value, recv_fields, recv_row}

-- A value as `recv` is given it.
pub record Cell : Type 0 where
  pub cell_oid : ℕ
  pub cell_size : ℕ
  pub cell_data : Bytes

abbrev pub Row : Type 0
Row = Bytes → Option Cell

unfoldable pub recv_cell : OidMap → (t : Ty) → Cell → El t → Result Failure (El t)
recv_cell oids t cell out = do
  (v, rest) ← recv oids t (some cell.cell_oid) cell.cell_size out cell.cell_data
  ok v

-- The specification: each member is received from the value of its name.
unfoldable pub recv_record :
    OidMap → (fs : Fields) → Row → Els (members fs) → Result Failure (Els (members fs))
recv_record oids [] row out = ok tt
recv_record oids (f ∷ fs) row out =
    let rest = recv_record oids fs row out.1 in
    elim (row f.0) [
      | none ↦ err Failure.no_column
      | some cell ↦ do v ← recv_cell oids f.1 cell out.0; vs ← rest; ok (v, vs)
    ]

-- The abstract row of a result's row.
unfoldable pub cell_of : PgResult → ℕ → ℕ → Cell
cell_of res i j = record {
  cell_oid = value_oid res (at_cell i j);
  cell_size = incoming_size res (at_cell i j);
  cell_data = value_data res (at_cell i j);
}

unfoldable pub row_of : PgResult → ℕ → Row
row_of res i name = Option.map (cell_of res i) (res.pq_fnumber name)

recv_value-cell :
    (res : PgResult) (oids : OidMap) (t : Ty) (i j : ℕ) (out : El t)
    → recv_value res oids t (at_cell i j) out ≡ recv_cell oids t (cell_of res i j) out
unfolding recv_value recv_cell cell_of
recv_value-cell res oids t i j out = refl

recv_fields-record :
    (res : PgResult) (oids : OidMap) (fs : Fields) (i : ℕ) (out : Els (members fs))
    → IsPgResult res
    → recv_fields res oids fs (at_row i) out ≡ recv_record oids fs (row_of res i) out
unfolding recv_fields row_of recv_record
recv_fields-record res oids [] i out h = refl
recv_fields-record res oids (f ∷ fs) i out h = elim (Option-cases (res.pq_fnumber f.0)) [
  | inl e ↦ rw (find-equal_value res f.0 i none h e) (rw (recv_record, e) refl)
  | inr e ↦
      rw
        (
          find-equal_value res f.0 i (some e.0) h e.1,
          find-cell res f.0 i e.0 h e.1,
          recv_value-cell res oids f.1 i e.0 out.0,
          recv_fields-record res oids fs i out.1 h,
        )
        (rw (recv_record, e.1) refl)
]

-- A row is received into a structure as the specification says of its abstract row: after the
-- check of the number of columns, each member takes the value that libpq knows by its name.
pub recv_row-record :
    (res : PgResult) (oids : OidMap) (fs : Fields) (i : ℕ) (out : Els (members fs))
    → IsPgResult res
    → recv_row res oids (structure fs) (at_row i) out ≡ (
        throw_if (not (fields_number (members fs) == res.pq_nfields)) Failure.row_size
        >> recv_record oids fs (row_of res i) out)
unfolding recv_row
recv_row-record res oids fs i out h =
    rw (row_size_lem res h, recv_fields-record res oids fs i out h) refl

recv_record-same :
    (oids : OidMap) (fs : Fields) (row row' : Row) (out : Els (members fs))
    → ((name : Bytes) → row name ≡ row' name)
    → recv_record oids fs row out ≡ recv_record oids fs row' out
unfolding recv_record
recv_record-same oids [] row row' out h = refl
recv_record-same oids (f ∷ fs) row row' out h = elim (Option-cases (row' f.0)) [
  | inl e ↦ rw (recv_record, h f.0 ∙ e, e) refl
  | inr e ↦ rw (recv_record, h f.0 ∙ e.1, e.1) (rw (recv_record-same oids fs row row' out.1 h) refl)
]

-- The order of the columns does not matter to a structure: two results with the same number of
-- columns, in which each name leads to the same value, are received as the same object or with the
-- same error.
pub recv_row-same :
    (res res' : PgResult) (oids : OidMap) (fs : Fields) (i : ℕ) (out : Els (members fs))
    → IsPgResult res
    → IsPgResult res'
    → res.pq_nfields ≡ res'.pq_nfields
    → ((name : Bytes) → row_of res i name ≡ row_of res' i name)
    → recv_row res oids (structure fs) (at_row i) out
      ≡ recv_row res' oids (structure fs) (at_row i) out
recv_row-same res res' oids fs i out h h' width same =
    rw
      (
        recv_row-record res oids fs i out h,
        recv_row-record res' oids fs i out h',
        recv_record-same oids fs (row_of res i) (row_of res' i) out same,
        width,
      )
      refl
