-- ===== src/Rows/Overwrite.antt =====
-- The two forms of `recv_result`: objects that are there already, and an insert iterator.
use ozo.Prelude.{
  ℕ, zero, suc, ◌≡◌, refl, ap, sym, List, [], ◌∷◌, ◌++◌, some, inl, inr, append_assoc, length,
  replicate,
}
use ozo.Prelude.Result.{ok, ◌>>=◌, Result-cases}
use ozo.Io.OidMap.{OidMap}
use ozo.Rows.{PgResult, Coordinates, IsPgResult}
use ozo.Rows.Visit.{from, rows_lem}
use ozo.Rows.Receive.{
  RowType, ElRow, init_row, recv_row, insert_rows, overwrite_rows, overwrite_result, recv_result,
}

length-from : (n i : ℕ) → length (from n i) ≡ n
length-from zero i = refl
length-from (suc n) i = ap suc (length-from n (suc i))

-- What is in the container does not matter to the loop.
insert_rows-append :
    (res : PgResult) (oids : OidMap) (r : RowType) (left : List Coordinates)
    (container vs : List (ElRow r))
    → insert_rows res oids r left (container ++ vs)
      ≡ (insert_rows res oids r left vs >>= λ ws. ok (container ++ ws))
unfolding insert_rows
insert_rows-append res oids r [] container vs = refl
insert_rows-append res oids r (row ∷ left) container vs =
    elim (Result-cases (recv_row res oids r row (init_row r))) [
      | inl e ↦ rw e.1 refl
      | inr e ↦
          rw (e.1, append_assoc container vs (e.0 ∷ []))
            (insert_rows-append res oids r left container (vs ++ e.0 ∷ []))
    ]

overwrite_rows-insert :
    (res : PgResult) (oids : OidMap) (r : RowType) (left : List Coordinates)
    (objects : List (ElRow r))
    → overwrite_rows res oids r left (replicate (length left) (init_row r) ++ objects)
      ≡ some (insert_rows res oids r left [] >>= λ vs. ok (vs ++ objects))
unfolding overwrite_rows insert_rows
overwrite_rows-insert res oids r [] objects = refl
overwrite_rows-insert res oids r (row ∷ left) objects =
    elim (Result-cases (recv_row res oids r row (init_row r))) [
      | inl e ↦ rw (overwrite_rows, e.1) refl
      | inr e ↦
          rw (overwrite_rows, e.1)
            (rw
              (
                insert_rows-append res oids r left (e.0 ∷ []) [],
                overwrite_rows-insert res oids r left objects,
              )
              (elim (Result-cases (insert_rows res oids r left [])) [
                | inl f ↦ rw f.1 refl
                | inr f ↦ rw f.1 refl
              ]))
    ]

-- Received into objects that are there, of which the first ones are value-initialized and as many as
-- the result has rows, a result overwrites these with what an insert iterator would append, fails
-- where that fails, and leaves the objects behind them as they are.
pub overwrite_result-insert :
    (res : PgResult) (oids : OidMap) (r : RowType) (objects : List (ElRow r))
    → IsPgResult res
    → overwrite_result res oids r (replicate (res.pq_ntuples) (init_row r) ++ objects)
      ≡ some (recv_result res oids r [] >>= λ vs. ok (vs ++ objects))
unfolding overwrite_result recv_result
overwrite_result-insert res oids r objects p =
    let count =
      ap (λ k. replicate k (init_row r) ++ objects) (sym (length-from res.pq_ntuples 0)) in
    rw (rows_lem res p, count) (overwrite_rows-insert res oids r (from (res.pq_ntuples) 0) objects)
