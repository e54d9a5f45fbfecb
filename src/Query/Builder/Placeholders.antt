-- ===== src/Query/Builder/Placeholders.antt =====
-- The placeholders in the text, and the parameters that they stand for.
use native.Mathlib.Nat.{pow-suc}
use ozo.Prelude.{
  ℕ, zero, suc, ◌+◌, ◌-◌, ◌*◌, ◌/◌, ◌%◌, ◌^◌, ◌<◌, ◌≡◌, refl, sym, ap, ◌∙◌, inl, inr, arith, List,
  [], ◌∷◌, ◌++◌, append-nil, append_assoc, some, Bytes, length, length-append, get_elem?, ◌==◌,
  Bool-cases, ==_iff,
}
use ozo.Prelude.Text.{codes, from_decimal}
use ozo.Query.Builder.{
  Element, query_text, query_param, digit_to_string, to_string_rounds, to_string, add_text,
  fold_text, text, add_param, fold_params, params, build, concat,
}

from_decimal-append :
    (acc : ℕ) (xs : Bytes) (d : ℕ)
    → from_decimal acc (xs ++ digit_to_string d) ≡ from_decimal acc xs * 10 + d
unfolding from_decimal digit_to_string
from_decimal-append acc [] d = omega arith
from_decimal-append acc (x ∷ xs) d = from_decimal-append (acc * 10 + (x - b'0')) xs d

from_decimal-to_string_rounds :
    (rounds value : ℕ)
    → value < 10 ^ rounds
    → from_decimal 0 (to_string_rounds rounds value) ≡ value
unfolding to_string_rounds
from_decimal-to_string_rounds zero value h = unfold from_decimal in omega (arith, h)
from_decimal-to_string_rounds (suc rounds) value h =
    let rest = (value - value % 10) / 10 in
    let head = from_decimal-to_string_rounds rounds rest (omega (arith, h, pow-suc 10 rounds)) in
    elim (Bool-cases (rest == 0)) [
      | inl e ↦ rw e (
          from_decimal-append 0 [] (value % 10)
          ∙ unfold from_decimal in omega (arith, (==_iff rest 0).0 e))
      | inr e ↦
          rw e (
            from_decimal-append 0 (to_string_rounds rounds rest) (value % 10) ∙ omega (arith, head))
    ]

-- The digits of a number of up to 20 digits are read as that number.
from_decimal-to_string : (value : ℕ) → value < 10 ^ 20 → from_decimal 0 (to_string value) ≡ value
unfolding to_string
from_decimal-to_string value h = from_decimal-to_string_rounds 20 value h

module _ {V : Type 0} where
  fold_text-append :
      (r : ℕ × Bytes) (xs ys : List (Element V))
      → fold_text r (xs ++ ys) ≡ fold_text (fold_text r xs) ys
  unfolding fold_text
  fold_text-append r [] ys = refl
  fold_text-append r (x ∷ xs) ys = fold_text-append (add_text r x) xs ys

  fold_params-from :
      (r : List V) (es : List (Element V)) → fold_params r es ≡ r ++ fold_params [] es
  unfolding fold_params add_param
  fold_params-from r [] = sym (append-nil r)
  fold_params-from r (query_text t ∷ es) = fold_params-from r es
  fold_params-from r (query_param v ∷ es) =
      fold_params-from (r ++ v ∷ []) es
      ∙ append_assoc r (v ∷ []) (fold_params [] es)
      ∙ ap (λ vs. r ++ vs) (sym (fold_params-from (v ∷ []) es))

  fold_params-append :
      (r : List V) (xs ys : List (Element V))
      → fold_params r (xs ++ ys) ≡ fold_params (fold_params r xs) ys
  unfolding fold_params
  fold_params-append r [] ys = refl
  fold_params-append r (x ∷ xs) ys = fold_params-append (add_param r x) xs ys

  -- The number of the next placeholder counts the parameters.
  fold_text-number :
      (r : ℕ × Bytes) (vs : List V) (es : List (Element V))
      → r.0 ≡ 1 + length vs
      → (fold_text r es).0 ≡ 1 + length (fold_params vs es)
  unfolding fold_text fold_params add_text add_param
  fold_text-number r vs [] h = h
  fold_text-number r vs (query_text t ∷ es) h = fold_text-number (r.0, r.1 ++ t) vs es h
  fold_text-number r vs (query_param v ∷ es) h =
      fold_text-number (r.0 + 1, r.1 ++ (codes "$" ++ to_string r.0)) (vs ++ v ∷ []) es
        (omega (arith, h, length-append vs (v ∷ [])))

  -- Text is only added at the end.
  fold_text-extends :
      (r : ℕ × Bytes) (es : List (Element V)) → (tail : Bytes) × ((fold_text r es).1 ≡ r.1 ++ tail)
  unfolding fold_text add_text
  fold_text-extends r [] = ([], sym (append-nil r.1))
  fold_text-extends r (query_text t ∷ es) =
      let rest = fold_text-extends (r.0, r.1 ++ t) es in
      (t ++ rest.0, rest.1 ∙ append_assoc r.1 t rest.0)
  fold_text-extends r (query_param v ∷ es) =
      let mark = codes "$" ++ to_string r.0 in
      let rest = fold_text-extends (r.0 + 1, r.1 ++ mark) es in
      (mark ++ rest.0, rest.1 ∙ append_assoc r.1 mark rest.0)

  get_elem?-append : (xs ys : List V) (v : V) → get_elem? (xs ++ v ∷ ys) (length xs) ≡ some v
  get_elem?-append [] ys v = refl
  get_elem?-append (x ∷ xs) ys v = get_elem?-append xs ys v

  -- A parameter element becomes a `$` and a number, behind the text of the elements before it; and
  -- the number, counted from 1, is the place of its value among the parameters of the query.
  pub build-placeholder :
      (before after : List (Element V)) (v : V)
      → let query = build (concat before (query_param v ∷ after)) in
        let place = length (params before) in
        ((tail : Bytes) × (query.0 ≡ (text before ++ (codes "$" ++ to_string (suc place))) ++ tail))
        × (get_elem? query.1 place ≡ some v)
  unfolding build concat text params add_text add_param fold_text fold_params
  build-placeholder before after v =
      let start : ℕ × Bytes = fold_text (1, []) before in
      let number : start.0 ≡ suc (length (fold_params [] before)) =
        omega (arith, fold_text-number (1, []) [] before refl) in
      let whole = fold_text-append (1, []) before (query_param v ∷ after) in
      let extends = fold_text-extends (add_text start (query_param v)) after in
      let values =
        fold_params-append [] before (query_param v ∷ after)
        ∙ fold_params-from (fold_params [] before ++ v ∷ []) after
        ∙ append_assoc (fold_params [] before) (v ∷ []) (fold_params [] after) in
      (
        (
          extends.0,
          ap (λ (r : ℕ × Bytes). r.1) whole
              ∙ extends.1
              ∙ ap (λ n. (start.1 ++ (codes "$" ++ to_string n)) ++ extends.0) number,
        ),
        ap (λ vs. get_elem? vs (length (fold_params [] before))) values
            ∙ get_elem?-append (fold_params [] before) (fold_params [] after) v,
      )
