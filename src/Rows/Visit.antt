-- ===== src/Rows/Visit.antt =====
-- The loop over the rows of a result, and the accesses with a range check.
use ozo.Prelude.{
  ℕ, zero, suc, ◌+◌, ◌^◌, ◌<◌, ◌≡◌, refl, ◌∙◌, ◌==◌, ◌%◌, ap, List, [], ◌∷◌, arith, false, ==_self,
}
use ozo.Rows.{
  PgResult, IsPgResult, Coordinates, add_int, to_size, advance_row, equal_row, result_begin,
  result_end, result_size,
}
use ozo.Rows.Receive.{visit, rows}

-- The first coordinates of `n` rows from number `i` on.
abbrev pub from : ℕ → ℕ → List Coordinates
from zero i = []
from (suc n) i = record { row = i; col = 0 } ∷ from n (suc i)

pub add_int_small : (a b : ℕ) → a + b < 2 ^ 32 → add_int a b ≡ a + b
unfolding add_int
add_int_small a b h = omega arith

pub to_size_small : (n : ℕ) → n < 2 ^ 31 → to_size n ≡ n
unfolding to_size
to_size_small n h = ground arith

abbrev pub at_row : ℕ → Coordinates
at_row i = record { row = i; col = 0 }

visit_end : (fuel i : ℕ) → visit fuel (at_row i) (at_row i) ≡ []
unfolding visit equal_row
visit_end zero i = refl
visit_end (suc fuel) i = rw (==_self i) refl

visit_next :
    (fuel i k : ℕ)
    → i < k
    → k < 2 ^ 31
    → visit (suc fuel) (at_row i) (at_row k) ≡ at_row i ∷ visit fuel (at_row (suc i)) (at_row k)
unfolding visit equal_row advance_row
visit_next fuel i k h b =
    let differ : (i == k) ≡ false = ground arith in
    let next : add_int i 1 ≡ suc i = add_int_small i 1 (omega arith) ∙ omega arith in
    rw (differ, next) refl

visit_from :
    (n extra i k : ℕ) → k ≡ i + n → k < 2 ^ 31 → visit (n + extra) (at_row i) (at_row k) ≡ from n i
visit_from zero extra i k e b = let same : k ≡ i = omega arith in rw same (visit_end (0 + extra) i)
visit_from (suc n) extra i k e b =
    let more : suc n + extra ≡ suc (n + extra) = omega arith in
    rw (more, visit_next (n + extra) i k (omega arith) b)
      (ap (◌∷◌ (at_row i)) (visit_from n extra (suc i) k (omega arith) b))

-- The loop over a result visits each of its rows once and in order, and ends at `end()`: more rounds
-- than rows add nothing.
visit-rows :
    (res : PgResult) (extra : ℕ)
    → IsPgResult res
    → visit (result_size res + extra) result_begin (result_end res) ≡ from (res.pq_ntuples) 0
unfolding result_begin result_end result_size advance_row
visit-rows res extra h =
    let size : to_size res.pq_ntuples ≡ res.pq_ntuples = to_size_small res.pq_ntuples h.1 in
    let last : add_int 0 (res.pq_ntuples % 2 ^ 32) ≡ res.pq_ntuples =
      add_int_small 0 (res.pq_ntuples % 2 ^ 32) (omega arith) ∙ omega arith in
    rw (size, last) (visit_from res.pq_ntuples extra 0 res.pq_ntuples (omega arith) h.1)

pub rows_lem : (res : PgResult) → IsPgResult res → rows res ≡ from (res.pq_ntuples) 0
unfolding rows
rows_lem res h =
    let no_extra : result_size res ≡ result_size res + 0 = omega arith in
    rw no_extra (visit-rows res 0 h)
