-- ===== src/Query/Conf/Keys.antt =====
-- The numbers of the parameters that are named after members.
use ozo.Prelude.{
  ℕ, ◌+◌, ◌≡◌, refl, ap, ◌∙◌, inl, inr, arith, true, false, List, [], ◌∷◌, ◌++◌, Option, Bytes, All,
  length, Bool-cases,
}
use ozo.Prelude.Result.{ok, err}
use ozo.Prelude.Text.{codes, to_string, bytes_eq, bytes_eq_self}
use ozo.Query.Conf.{query_parameter_name, Failure, members, find_key, parameter_number, visit_part}

find_key_found :
    (value : Bytes) (keys : List Bytes) (n : ℕ) → find_key value keys (n, true) ≡ (n, true)
unfolding find_key
find_key_found value [] n = refl
find_key_found value (key ∷ keys) n = elim (Bool-cases (bytes_eq key value)) [
  | inl e ↦ rw e (find_key_found value keys n)
  | inr e ↦ rw e (find_key_found value keys n)
]

-- No key of the list is `value`.
abbrev pub Lacks : Bytes → List Bytes → Type 0
Lacks value = All (λ key. bytes_eq key value ≡ false)

find_key-append :
    (value : Bytes) (before after : List Bytes) (n : ℕ)
    → Lacks value before
    → find_key value (before ++ value ∷ after) (n, false) ≡ (n + length before, true)
unfolding find_key
find_key-append value [] after n h =
    rw (find_key, bytes_eq_self value)
      (find_key_found value after n ∙ ap (λ (k : ℕ). (k, true)) (omega arith))
find_key-append value (key ∷ before) after n h =
    rw (find_key, h.0)
      (find_key-append value before after (n + 1) h.1 ∙ ap (λ (k : ℕ). (k, true)) (omega arith))

find_key-Lacks :
    (value : Bytes) (keys : List Bytes) (n : ℕ)
    → Lacks value keys
    → (find_key value keys (n, false)).1 ≡ false
unfolding find_key
find_key-Lacks value [] n h = refl
find_key-Lacks value (key ∷ keys) n h = rw (find_key, h.0) (find_key-Lacks value keys (n + 1) h.1)

module _ (lexical_convert : Bytes → Option ℕ) (trim : Bytes → Bytes) where
  -- A parameter that is named after the first member of that name becomes a `$` and the member's
  -- place, counted from 1; and one whose name is no member's is an error.
  pub visit_part-members :
      (text value : Bytes) (before after : List Bytes)
      → Lacks value before
      → (visit_part lexical_convert trim
            (members (before ++ value ∷ after))
            text
            (query_parameter_name value)
          ≡ ok (text ++ (codes "$" ++ to_string (length before + 1))))
        × (visit_part lexical_convert trim (members before) text (query_parameter_name value)
            ≡ err (Failure.parameter_not_found value))
  unfolding visit_part parameter_number
  visit_part-members text value before after h =
      let zero_plus : 0 + length before ≡ length before = omega arith in
      (
        rw (find_key-append value before after 0 h) (rw zero_plus refl),
        rw (find_key-Lacks value before 0 h) refl,
      )
