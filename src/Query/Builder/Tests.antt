-- ===== src/Query/Builder/Tests.antt =====
-- `"SELECT "_SQL + 42 + " + "_SQL + 7`
use ozo.Prelude.{ℕ, ◌≡◌, refl, [], ◌∷◌, List}
use ozo.Prelude.Text.{codes}
use ozo.Query.Builder.{
  Element, query_text, query_param, digit_to_string, to_string_rounds, to_string, add_text,
  fold_text, text, concat,
}

abbrev select : List (Element ℕ)
select = query_text (codes "SELECT ") ∷ query_param 42 ∷ query_text (codes " + ") ∷ []

text_select : text (concat select (query_param 7 ∷ [])) ≡ codes "SELECT $1 + $2"
unfolding text fold_text add_text concat to_string to_string_rounds digit_to_string
text_select = refl
