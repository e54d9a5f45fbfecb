-- ===== src/Query/Conf/Repository.antt =====
-- A repository has a text for every declared query.
use mathlib.Core.Path.{subst}
use mathlib.Core.Option.{some-injective}
use ozo.Prelude.{
  ◌≡◌, refl, sym, ap, ◌∙◌, ◌⊎◌, inl, inr, arith, ℕ, Bool, true, false, not, List, [], ◌∷◌, Option,
  none, some, Bytes, map, Bool-cases,
}
use ozo.Prelude.Result.{
  ok, err, OkHolds, >>=-OkHolds, >>-OkHolds, throw_if-OkHolds, if-OkHolds, OkHolds-implies,
}
use ozo.Prelude.Text.{bytes_eq}
use ozo.Query.Conf.{
  Line, TextElement, ParsedQuery, Failure, Declaration, QueryDescription, describe,
  describe_declared, visit_parts, make_query_descriptions, count, check_for_duplicates,
  check_for_undefined, get_description, parse_query_conf, make_query_repository,
}

-- The query is one of the list.
abbrev pub In : Declaration → List Declaration → Type 0
In q [] = ⊥
In q (d ∷ ds) = (d ≡ q) ⊎ In q ds

-- A name in the set that the check gives back is one of those checked, or was there before.
abbrev Found : List Bytes → List Bytes → List Bytes → Type 0
Found seen names found =
    (name : Bytes) → count name found ≡ true → (count name seen ≡ true) ⊎ (count name names ≡ true)

Found-later :
    (n : Bytes) (seen names found : List Bytes)
    → Found (n ∷ seen) names found
    → Found seen (n ∷ names) found
unfolding count
Found-later n seen names found h name c = elim (Bool-cases (bytes_eq n name)) [
  | inl e ↦ inr (rw e refl)
  | inr e ↦ elim (h name c) [ inl s ↦ inl (rw e at s) | inr s ↦ inr (rw e s) ]
]

check_for_duplicates-Found :
    (failure : Bytes → Failure) (seen names : List Bytes)
    → OkHolds (Found seen names) (check_for_duplicates failure seen names)
unfolding check_for_duplicates
check_for_duplicates-Found failure seen [] = λ name c. inl c
check_for_duplicates-Found failure seen (n ∷ names) =
    if-OkHolds (Found seen (n ∷ names)) (count n seen) (err (failure n))
      (check_for_duplicates failure (n ∷ seen) names) (λ e. tt)
      (λ e.
        OkHolds-implies (Found (n ∷ seen) names) (Found seen (n ∷ names))
          (check_for_duplicates failure (n ∷ seen) names) (Found-later n seen names)
          (check_for_duplicates-Found failure (n ∷ seen) names))

-- Every declared name is in the set of the defined ones.
abbrev Defined : List Declaration → List Bytes → Type 0
Defined queries names = (q : Declaration) → In q queries → count q.name names ≡ true

not-false : (b : Bool) → not b ≡ false → b ≡ true
not-false b h = ground arith

check_for_undefined-Defined :
    (queries : List Declaration) (names : List Bytes)
    → OkHolds (λ u. Defined queries names) (check_for_undefined queries names)
unfolding check_for_undefined
check_for_undefined-Defined [] names = λ q i. absurd i
check_for_undefined-Defined (d ∷ ds) names =
    throw_if-OkHolds (λ u. Defined (d ∷ ds) names) (not (count d.name names)) _
      (check_for_undefined ds names)
      (λ e.
        OkHolds-implies (λ u. Defined ds names) (λ u. Defined (d ∷ ds) names)
          (check_for_undefined ds names)
          (λ u h q i. elim i [
            | inl same ↦
                subst (λ p. count p.name names ≡ true) same (not-false (count d.name names) e)
            | inr later ↦ h q later
          ])
          (check_for_undefined-Defined ds names))

describe-name :
    (lexical_convert : Bytes → Option ℕ) (trim : Bytes → Bytes) (q : Declaration)
    (parsed : ParsedQuery)
    → OkHolds (λ x. x.name ≡ parsed.name) (describe lexical_convert trim q parsed)
unfolding describe
describe-name l t q parsed =
    >>=-OkHolds (λ x. x.name ≡ parsed.name) (visit_parts l t q.parameters [] parsed.text) _
      (λ a e. refl)

describe_declared-name :
    (lexical_convert : Bytes → Option ℕ) (trim : Bytes → Bytes) (queries : List Declaration)
    (parsed : ParsedQuery) (d : Option QueryDescription)
    → ((x : QueryDescription) → d ≡ some x → x.name ≡ parsed.name)
    → OkHolds (λ x. x.name ≡ parsed.name) (describe_declared lexical_convert trim queries parsed d)
unfolding describe_declared
describe_declared-name l t [] parsed none h = tt
describe_declared-name l t [] parsed (some x) h = h x refl
describe_declared-name l t (q ∷ qs) parsed d h =
    let P : QueryDescription → Type 0 = λ x. x.name ≡ parsed.name in
    if-OkHolds P (bytes_eq q.name parsed.name) _ _
      (λ e. >>=-OkHolds P (describe l t q parsed) _ (λ x k.
        let named = subst (OkHolds P) k (describe-name l t q parsed) in
        describe_declared-name l t qs parsed (some x)
          (λ y j. subst P (some-injective _ _ j) named)))
      (λ e. describe_declared-name l t qs parsed d h)

get_description-count :
    (ds : List QueryDescription) (name : Bytes)
    → count name (map (λ d. d.name) ds) ≡ true
    → (t : Bytes) × (get_description ds name ≡ some t)
unfolding count get_description
get_description-count [] name c = ground (arith, c)
get_description-count (d ∷ ds) name c = elim (Bool-cases (bytes_eq d.name name)) [
  | inl e ↦ (d.text, rw e refl)
  | inr e ↦ let rest = get_description-count ds name (rw e at c) in (rest.0, rw e rest.1)
]

nothing_seen : (name : Bytes) → count name [] ≡ true → ⊥
unfolding count
nothing_seen name h = ground (arith, h)

descriptions-names :
    (lexical_convert : Bytes → Option ℕ) (trim : Bytes → Bytes) (queries : List Declaration)
    (ps : List ParsedQuery)
    → OkHolds
        (λ ds. map (λ d. d.name) ds ≡ map (λ p. p.name) ps)
        (make_query_descriptions lexical_convert trim queries ps)
unfolding make_query_descriptions
descriptions-names l t queries [] = refl
descriptions-names l t queries (p ∷ ps) =
    let P : List QueryDescription → Type 0 =
      λ ds. map (λ d. d.name) ds ≡ map (λ q. q.name) (p ∷ ps) in
    let rest = descriptions-names l t queries ps in
    >>=-OkHolds P (describe_declared l t queries p none) _ (λ x k.
      let named =
        subst (OkHolds (λ y. y.name ≡ p.name)) k
          (describe_declared-name l t queries p none (λ y j. ground (arith, j))) in
      >>=-OkHolds P (make_query_descriptions l t queries ps) _ (λ xs k'.
        let names = subst (OkHolds (λ ds. map (λ d. d.name) ds ≡ map (λ q. q.name) ps)) k' rest in
        ap (λ n. n ∷ map (λ d. d.name) xs) named ∙ ap (λ ns. p.name ∷ ns) names))

module _ (lines : Bytes → Option (List Line)) (header : Bytes → Option Bytes)
    (text : Bytes → Option (List TextElement)) (lexical_convert : Bytes → Option ℕ)
    (trim : Bytes → Bytes) where
  abbrev Serves : List Declaration → List QueryDescription → Type 0
  Serves queries ds =
      (q : Declaration) → In q queries → (t : Bytes) × (get_description ds q.name ≡ some t)

  described-Serves :
      (queries : List Declaration) (parsed : List ParsedQuery) (names : List Bytes)
      → Found [] (map (λ p. p.name) parsed) names
      → Defined queries names
      → OkHolds (Serves queries) (make_query_descriptions lexical_convert trim queries parsed)
  described-Serves queries parsed names found defined =
      OkHolds-implies (λ ds. map (λ d. d.name) ds ≡ map (λ p. p.name) parsed) (Serves queries)
        (make_query_descriptions lexical_convert trim queries parsed)
        (λ ds same q i. elim (found q.name (defined q i)) [
          | inl none_seen ↦ absurd (nothing_seen q.name none_seen)
          | inr c ↦
              get_description-count ds q.name (subst (λ ns. count q.name ns ≡ true) (sym same) c)
        ])
        (descriptions-names lexical_convert trim queries parsed)

  make_query_repository-Serves :
      (queries : List Declaration) (range : Bytes)
      → OkHolds
          (Serves queries)
          (make_query_repository lines header text lexical_convert trim queries range)
  unfolding make_query_repository
  make_query_repository-Serves queries range =
      let P = Serves queries in
      let duplicate = Failure.duplicate_definition in
      >>=-OkHolds P
        (check_for_duplicates Failure.duplicate_declaration [] (map (λ q. q.name) queries)) _
        (λ u e.
          >>=-OkHolds P (parse_query_conf lines header text lexical_convert trim range) _
            (λ parsed e'.
              >>=-OkHolds P (check_for_duplicates duplicate [] (map (λ p. p.name) parsed)) _
                (λ names k. >>-OkHolds P (check_for_undefined queries names) _ (λ k'.
                  described-Serves queries parsed names
                    (subst (OkHolds (Found [] (map (λ p. p.name) parsed))) k
                      (check_for_duplicates-Found duplicate [] (map (λ p. p.name) parsed)))
                    (subst (OkHolds (λ v. Defined queries names)) k'
                      (check_for_undefined-Defined queries names))))))

  -- A repository that is made has a text for every query type that it was declared with: `make_query`
  -- never looks for a name that is missing.
  pub make_query_repository-get_description :
      (queries : List Declaration) (range : Bytes) (descriptions : List QueryDescription)
      (query : Declaration)
      → make_query_repository lines header text lexical_convert trim queries range ≡ ok descriptions
      → In query queries
      → (t : Bytes) × (get_description descriptions query.name ≡ some t)
  make_query_repository-get_description queries range ds q h i =
      subst (OkHolds (Serves queries)) h (make_query_repository-Serves queries range) q i
