-- ===== src/Query/Builder.antt =====
-- include/ozo/query_builder.h: a query as a sequence of text and parameter elements. The values of
-- the parameters, of any types in C++, are values of one type `V`.
pub mod Placeholders
mod Tests
use ozo.Prelude.{
  ℕ, zero, suc, ◌+◌, ◌-◌, ◌/◌, ◌%◌, ◌≡◌, List, [], ◌∷◌, ◌++◌, Bytes, ◌==◌, if◌then◌else◌,
}
use ozo.Prelude.Text.{codes}

-- `digit_to_string`
unfoldable pub digit_to_string : ℕ → Bytes
digit_to_string value = (b'0' + value) ∷ []

-- `to_string`, whose recursion has one round for each digit; `to_string_head` is empty for 0.
unfoldable pub to_string_rounds : ℕ → ℕ → Bytes
to_string_rounds zero value = []
to_string_rounds (suc rounds) value =
    let dividend = value % 10 in
    let rest = (value - dividend) / 10 in
    let head = to_string_rounds rounds rest in
    (if rest == 0 then [] else head) ++ digit_to_string dividend

-- A `std::size_t` has at most 20 digits.
unfoldable pub to_string : ℕ → Bytes
to_string value = to_string_rounds 20 value

-- `query_element`, by its tag.
pub data Element (V : Type 0) : Type 0 where
  query_text : Bytes → Element V
  query_param : V → Element V

module _ {V : Type 0} where
  -- The fold of `text()`: the number of the next placeholder, and the text so far.
  unfoldable pub add_text : ℕ × Bytes → Element V → ℕ × Bytes
  add_text r (query_text value) = (r.0, r.1 ++ value)
  add_text r (query_param value) = (r.0 + 1, r.1 ++ (codes "$" ++ to_string r.0))

  unfoldable pub fold_text : ℕ × Bytes → List (Element V) → ℕ × Bytes
  fold_text r [] = r
  fold_text r (e ∷ es) = fold_text (add_text r e) es

  unfoldable pub text : List (Element V) → Bytes
  text elements = (fold_text (1, []) elements).1

  -- The fold of `params()`.
  unfoldable pub add_param : List V → Element V → List V
  add_param r (query_text value) = r
  add_param r (query_param value) = r ++ value ∷ []

  unfoldable pub fold_params : List V → List (Element V) → List V
  fold_params r [] = r
  fold_params r (e ∷ es) = fold_params (add_param r e) es

  unfoldable pub params : List (Element V) → List V
  params elements = fold_params [] elements

  -- `build()`: the text and the parameters of the query.
  unfoldable pub build : List (Element V) → Bytes × List V
  build elements = (text elements, params elements)

  -- `operator +` of two builders; an element alone is a builder of one.
  unfoldable pub concat : List (Element V) → List (Element V) → List (Element V)
  concat lhs rhs = lhs ++ rhs
