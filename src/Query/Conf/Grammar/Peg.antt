-- ===== src/Query/Conf/Grammar/Peg.antt =====
-- Parsers that keep the laws, as small functions.
use mathlib.Core.Option.{some-injective}
use ozo.Prelude.{
  ℕ, zero, suc, ◌<◌, ◌≡◌, ◌≢◌, refl, sym, ap, ◌∙◌, inl, inr, arith, Bool, List, [], ◌∷◌, ◌++◌, ◌==◌,
  Option, none, some, Bytes, length, Option-cases, Bool-cases, ==_self, ==_iff, if◌then◌else◌,
}
use ozo.Query.Conf.Grammar.{Parser, X3, on}
use ozo.Query.Conf.Grammar.Laws.{Consumes, IsX3, is_space}

-- The text behind a prefix.
abbrev pub strip : Bytes → Bytes → Option Bytes
strip [] bs = some bs
strip (c ∷ s) [] = none
strip (c ∷ s) (b ∷ bs) = if c == b then strip s bs else none

abbrev pub string : Bytes → Parser Bytes
string s bs = elim (strip s bs) [ none ↦ none | some rest ↦ some (s, rest) ]

abbrev pub char_ : (ℕ → Bool) → Parser ℕ
char_ f [] = none
char_ f (c ∷ bs) = if f c then some (c, bs) else none

abbrev pub behind_return : Bytes → Bytes
behind_return [] = []
behind_return (c ∷ bs) = if c == 10 then bs else c ∷ bs

abbrev pub eol : Parser (Unit {0})
eol [] = none
eol (c ∷ bs) =
    if c == 13 then some (tt, behind_return bs) else (if c == 10 then some (tt, bs) else none)

abbrev pub eoi : Parser (Unit {0})
eoi [] = some (tt, [])
eoi (c ∷ bs) = none

module _ {A : Type 0} (p : Parser A) where
  abbrev pub many_within : ℕ → Parser (List A)
  many_within zero bs = some ([], bs)
  many_within (suc n) bs = elim (p bs) [
    | none ↦ some ([], bs)
    | some r ↦ on (λ l. r.0 ∷ l) (many_within n) r.1
  ]

  abbrev pub many : Parser (List A)
  many bs = many_within (suc (length bs)) bs

  -- The bound does not matter as long as it is above the length.
  many_within-many_within :
      (takes : Consumes p) (m n : ℕ) (bs : Bytes)
      → length bs < m
      → length bs < n
      → many_within m bs ≡ many_within n bs
  many_within-many_within takes zero n bs h k = absurd (omega arith)
  many_within-many_within takes (suc m) zero bs h k = absurd (omega arith)
  many_within-many_within takes (suc m) (suc n) bs h k = elim (Option-cases (p bs)) [
    | inl e ↦ rw (many_within, e) refl
    | inr ((a, rest), e) ↦
        let less = takes bs a rest e in
        let same = many_within-many_within takes m n rest (omega arith) (omega arith) in
        rw (many_within, e) (rw (on, same) refl)
  ]

  pub many_law :
      (bs : Bytes)
      → Consumes p
      → many bs ≡ elim (p bs) [ none ↦ some ([], bs) | some r ↦ on (λ l. r.0 ∷ l) many r.1 ]
  many_law bs takes = elim (Option-cases (p bs)) [
    | inl e ↦ rw (many, many_within, e) refl
    | inr ((a, rest), e) ↦
        let less = takes bs a rest e in
        let same =
          many_within-many_within takes (length bs) (suc (length rest)) rest (omega arith)
            (omega arith) in
        let again : many bs ≡ on (λ l. a ∷ l) (many_within (length bs)) rest =
          rw (many, many_within, e) refl in
        let shifted : on (λ l. a ∷ l) (many_within (length bs)) rest ≡ on (λ l. a ∷ l) many rest =
          rw (on, same) refl in
        rw e (again ∙ shifted)
  ]

abbrev pub peg : X3
peg = record {
  string = string;
  char_ = char_;
  space = char_ is_space;
  eol = eol;
  eoi = eoi;
  except = λ p q bs. elim (q bs) [ none ↦ p bs | some r ↦ none ];
  seq = λ p q bs. elim (p bs) [ none ↦ none | some r ↦ on (λ b. (r.0, b)) q r.1 ];
  alt = λ p q bs. elim (p bs) [ none ↦ q bs | some r ↦ some r ];
  many = λ p. many p;
  many1 = λ p bs. elim (p bs) [ none ↦ none | some r ↦ on (λ l. r.0 ∷ l) (many p) r.1 ];
  optional = λ p bs. elim (p bs) [ none ↦ some (none, bs) | some r ↦ some (some r.0, r.1) ];
  phrase_parse = λ p skipped bs. elim (p bs) [ none ↦ none | some r ↦ some r.0 ];
}

strip-append : (s rest : Bytes) → strip s (s ++ rest) ≡ some rest
strip-append [] rest = refl
strip-append (c ∷ s) rest = rw (==_self c) (strip-append s rest)

strip-some : (s bs rest : Bytes) → strip s bs ≡ some rest → bs ≡ s ++ rest
strip-some [] bs rest h = some-injective _ _ h
strip-some (c ∷ s) [] rest h = ground (arith, h)
strip-some (c ∷ s) (b ∷ bs) rest h = elim (Bool-cases (c == b)) [
  | inl e ↦
      let stripped : strip s bs ≡ some rest = sym (rw e refl) ∙ h in
      ap (λ t. b ∷ t) (strip-some s bs rest stripped)
      ∙ ap (λ x. x ∷ (s ++ rest)) (sym ((==_iff c b).0 e))
  | inr e ↦ let other : strip (c ∷ s) (b ∷ bs) ≡ none = rw e refl in ground (arith, sym other ∙ h)
]

string_matched : (s bs a rest : Bytes) → string s bs ≡ some (a, rest) → (a ≡ s) × (bs ≡ s ++ rest)
string_matched s bs a rest h = elim (Option-cases (strip s bs)) [
  | inl e ↦ let other : string s bs ≡ none = rw (string, e) refl in ground (arith, sym other ∙ h)
  | inr (left, e) ↦
      let found : string s bs ≡ some (s, left) = rw (string, e) refl in
      let same = some-injective _ _ (sym found ∙ h) in
      (sym (ap (λ r. r.0) same), strip-some s bs left e ∙ ap (λ r. s ++ r.1) same)
]

space_matched :
    (bs : Bytes) (c : ℕ) (rest : Bytes) → char_ is_space bs ≡ some (c, rest) → bs ≡ c ∷ rest
space_matched [] c rest h = ground (arith, h)
space_matched (b ∷ bs) c rest h = elim (Bool-cases (is_space b)) [
  | inl e ↦
      let taken : char_ is_space (b ∷ bs) ≡ some (b, bs) = rw (char_, e) refl in
      ap (λ r. r.0 ∷ r.1) (some-injective _ _ (sym taken ∙ h))
  | inr e ↦
      let refused : char_ is_space (b ∷ bs) ≡ none = rw (char_, e) refl in
      ground (arith, sym refused ∙ h)
]

eol_fails : (c : ℕ) (bs : Bytes) → c ≢ 13 → c ≢ 10 → eol (c ∷ bs) ≡ none
eol_fails c bs h k = ground (arith, h, k)

pub peg-IsX3 : IsX3 peg
peg-IsX3 = record {
  string_matches = λ s rest. rw (string, strip-append s rest) refl;
  string_matched = string_matched;
  char_end = λ f. refl;
  char_one = λ f c bs. refl;
  eol_end = refl;
  eol_newline = λ bs. refl;
  eol_return = λ bs. (behind_return bs, refl);
  space_matched = space_matched;
  space_fails = λ c bs e. rw (char_, e) refl;
  eol_fails = eol_fails;
  eoi_end = refl;
  eoi_fails = λ c bs. refl;
  except_is = λ p q bs. refl;
  seq_is = λ p q bs. refl;
  alt_is = λ p q bs. refl;
  many_is = λ p bs takes. many_law p bs takes;
  many1_is = λ p bs takes. refl;
  optional_is = λ p bs. refl;
  phrase_parse_is = λ p skipped bs h. refl;
}
