-- ===== src/Rows/Access.antt =====
-- The accesses of result.h with a range check.
use ozo.Prelude.{
  ℕ, ◌^◌, ◌%◌, ◌<◌, ◌≡◌, refl, ◌∙◌, arith, Bool, false, true, if◌then◌else◌, ltb, leb, ◌||◌,
  ==_self, Option, some, none, Bytes, ◌==◌, Option-cases, inl, inr, not,
}
use ozo.Prelude.Result.{ok, err}
use ozo.Io.Recv.{is_negative}
use ozo.Rows.{
  PgResult, IsPgResult, Coordinates, add_int, to_size, advance_row, result_begin, result_size,
  row_size, row_end, find, equal_value, advance_col, row_at, row_at_name, result_at, row_index,
  result_index, field_index, no_such_field, row_out_of_range,
}
use ozo.Rows.Visit.{at_row, add_int_small, to_size_small}

abbrev pub at_cell : ℕ → ℕ → Coordinates
at_cell i j = record { row = i; col = j }

-- The range check, in the number of rows or columns.
range_check :
    (index n : ℕ) → n < 2 ^ 31 → (is_negative index || leb n (to_size index)) ≡ not (ltb index n)
unfolding to_size
range_check index n h = ground arith

zero_add_int : (j : ℕ) → j < 2 ^ 32 → add_int 0 j ≡ j
zero_add_int j h = add_int_small 0 j (omega arith) ∙ omega arith

pub row_size_lem : (res : PgResult) → IsPgResult res → row_size res ≡ res.pq_nfields
unfolding row_size
row_size_lem res h = to_size_small res.pq_nfields h.0

pub result_size_lem : (res : PgResult) → IsPgResult res → result_size res ≡ res.pq_ntuples
unfolding result_size
result_size_lem res h = to_size_small res.pq_ntuples h.1

pub row_end-cell :
    (res : PgResult) (i : ℕ) → IsPgResult res → row_end res (at_row i) ≡ at_cell i res.pq_nfields
unfolding row_end advance_col
row_end-cell res i h =
    let small : res.pq_nfields % 2 ^ 32 ≡ res.pq_nfields = omega (arith, h.0) in
    rw (row_size_lem res h, small, zero_add_int res.pq_nfields (omega (arith, h.0))) refl

pub find-cell :
    (res : PgResult) (name : Bytes) (i j : ℕ)
    → IsPgResult res
    → res.pq_fnumber name ≡ some j
    → find res name (at_row i) ≡ at_cell i j
unfolding find advance_col
find-cell res name i j h e =
    let below = h.3 name j e in rw (find, e) (rw (zero_add_int j (omega (arith, below, h.0))) refl)

pub find-end :
    (res : PgResult) (name : Bytes) (i : ℕ)
    → res.pq_fnumber name ≡ none
    → find res name (at_row i) ≡ row_end res (at_row i)
unfolding find
find-end res name i e = rw (find, e) refl

pub equal_value_self : (v : Coordinates) → equal_value v v ≡ true
unfolding equal_value
equal_value_self v = rw (==_self v.col, ==_self v.row) refl

-- What is found is not `end()`.
pub find-equal_value :
    (res : PgResult) (name : Bytes) (i : ℕ) (found : Option ℕ)
    → IsPgResult res
    → res.pq_fnumber name ≡ found
    → equal_value (find res name (at_row i)) (row_end res (at_row i))
      ≡ elim found [ none ↦ true | some j ↦ false ]
unfolding equal_value
find-equal_value res name i none h e =
    rw (find-end res name i e) (equal_value_self (row_end res (at_row i)))
find-equal_value res name i (some j) h e =
    let differ : (j == res.pq_nfields) ≡ false = ground (arith, h.3 name j e) in
    rw (find-cell res name i j h e, row_end-cell res i h, differ) refl

if_not : {A : Type 0} (b : Bool) (x y : A) → (if not b then x else y) ≡ (if b then y else x)
if_not true x y = refl
if_not false x y = refl

row_at_lem :
    (res : PgResult) (i j : ℕ)
    → IsPgResult res
    → j < 2 ^ 32
    → row_at res j (at_row i)
      ≡ (if ltb j (res.pq_nfields) then ok (at_cell i j) else err field_index)
unfolding row_at row_index advance_col
row_at_lem res i j h b =
    rw (row_size_lem res h, range_check j res.pq_nfields h.0, zero_add_int j b)
      (if_not (ltb j res.pq_nfields) (err field_index) (ok (at_cell i j)))

result_at_lem :
    (res : PgResult) (i : ℕ)
    → IsPgResult res
    → i < 2 ^ 32
    → result_at res i ≡ (if ltb i (res.pq_ntuples) then ok (at_row i) else err row_out_of_range)
unfolding result_at result_index advance_row result_begin
result_at_lem res i h b =
    rw (result_size_lem res h, range_check i res.pq_ntuples h.1, zero_add_int i b)
      (if_not (ltb i res.pq_ntuples) (err row_out_of_range) (ok (at_row i)))

row_at_name_lem :
    (res : PgResult) (name : Bytes) (i : ℕ)
    → IsPgResult res
    → row_at_name res name (at_row i)
      ≡ elim (res.pq_fnumber name) [ none ↦ err no_such_field | some j ↦ ok (at_cell i j) ]
unfolding row_at_name
row_at_name_lem res name i h = elim (Option-cases (res.pq_fnumber name)) [
  | inl e ↦ rw (e, find-equal_value res name i none h e) refl
  | inr e ↦
      rw (e.1, find-equal_value res name i (some e.0) h e.1, find-cell res name i e.0 h e.1) refl
]

-- The accesses to a result of libpq with a range check, for any `int` as an index, negative ones
-- included: `result::at` and `row::at` give the row or the value of an index below the number of
-- rows or columns, `row::at` gives the value in the column that libpq knows by a name, and any
-- other index or name throws.
pub at-checks :
    (res : PgResult) (i j : ℕ) (name : Bytes)
    → IsPgResult res
    → i < 2 ^ 32
    → j < 2 ^ 32
    → (result_at res i ≡ (if ltb i (res.pq_ntuples) then ok (at_row i) else err row_out_of_range))
      × (row_at res j (at_row i)
          ≡ (if ltb j (res.pq_nfields) then ok (at_cell i j) else err field_index))
      × (row_at_name res name (at_row i)
          ≡ elim (res.pq_fnumber name) [ none ↦ err no_such_field | some k ↦ ok (at_cell i k) ])
at-checks res i j name h a b =
    (result_at_lem res i h a, row_at_lem res i j h b, row_at_name_lem res name i h)
