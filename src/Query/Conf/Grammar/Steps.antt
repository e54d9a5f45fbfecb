-- ===== src/Query/Conf/Grammar/Steps.antt =====
-- What the parsers make of a text that is known.
use ozo.Prelude.{
  ℕ, ◌≡◌, ◌≢◌, refl, ◌∙◌, inl, inr, arith, Bool, true, not, ◌==◌, ◌&&◌, ◌||◌, Bool-cases, List, [],
  ◌∷◌, ◌++◌, none, some, Bytes, All, Option-cases,
}
use ozo.Query.Conf.Grammar.{Parser, X3, on, line_char, end_rule}
use ozo.Query.Conf.Grammar.Laws.{Consumes, IsX3}
use ozo.Query.Conf.Grammar.Lines.{line_char-Consumes}

-- A character within a line.
abbrev pub IsLineChar : ℕ → Type 0
IsLineChar c = (c ≢ 13) × (c ≢ 10) × (c ≢ 0)

abbrev pub line_chars : Bytes → Bool
line_chars [] = true
line_chars (c ∷ cs) = not (c == 13 || c == 10 || c == 0) && line_chars cs

pub line_chars-IsLineChar : (cs : Bytes) → line_chars cs ≡ true → All IsLineChar cs
line_chars-IsLineChar [] h = tt
line_chars-IsLineChar (c ∷ cs) h = elim (Bool-cases (line_chars cs)) [
  | inl e ↦ ((ground (arith, h), ground (arith, h), ground (arith, h)), line_chars-IsLineChar cs e)
  | inr e ↦ ground (arith, h, e)
]

pub All-append {κ} : (P : ℕ → Type κ) (xs ys : Bytes) → All P xs → All P ys → All P (xs ++ ys)
All-append P [] ys h k = k
All-append P (x ∷ xs) ys h k = (h.0, All-append P xs ys h.1 k)

module _ (x3 : X3) (laws : IsX3 x3) where
  pub string_fails : (s bs : Bytes) → ((rest : Bytes) → bs ≢ s ++ rest) → x3.string s bs ≡ none
  string_fails s bs h = elim (Option-cases (x3.string s bs)) [
    | inl e ↦ e
    | inr ((a, rest), e) ↦ absurd (h rest (laws.string_matched s bs a rest e).1)
  ]

  module _ {A : Type 0} (p : Parser A) where
    pub seq-some :
        {B : Type 0} (q : Parser B) (bs : Bytes) (a : A) (mid : Bytes) (b : B) (rest : Bytes)
        → p bs ≡ some (a, mid)
        → q mid ≡ some (b, rest)
        → x3.seq p q bs ≡ some ((a, b), rest)
    seq-some q bs a mid b rest e f = laws.seq_is p q bs ∙ rw e (rw (on, f) refl)

    pub alt-first :
        (q : Parser A) (bs : Bytes) (r : A × Bytes) → p bs ≡ some r → x3.alt p q bs ≡ some r
    alt-first q bs r e = laws.alt_is p q bs ∙ rw e refl

    pub alt-second : (q : Parser A) (bs : Bytes) → p bs ≡ none → x3.alt p q bs ≡ q bs
    alt-second q bs e = laws.alt_is p q bs ∙ rw e refl

    module _ (takes : Consumes p) (bs : Bytes) where
      pub many_ends : p bs ≡ none → x3.many p bs ≡ some ([], bs)
      many_ends e = laws.many_is p bs takes ∙ rw e refl

      pub many_goes :
          (a : A) (mid : Bytes) (l : List A) (rest : Bytes)
          → p bs ≡ some (a, mid)
          → x3.many p mid ≡ some (l, rest)
          → x3.many p bs ≡ some (a ∷ l, rest)
      many_goes a mid l rest e f = laws.many_is p bs takes ∙ rw e (rw (on, f) refl)

      pub many1_goes :
          (a : A) (mid : Bytes) (l : List A) (rest : Bytes)
          → p bs ≡ some (a, mid)
          → x3.many p mid ≡ some (l, rest)
          → x3.many1 p bs ≡ some (a ∷ l, rest)
      many1_goes a mid l rest e f = laws.many1_is p bs takes ∙ rw e (rw (on, f) refl)

  pub line_char-some : (c : ℕ) (bs : Bytes) → IsLineChar c → line_char x3 (c ∷ bs) ≡ some (c, bs)
  unfolding line_char
  line_char-some c bs h =
      laws.except_is (x3.char_ (λ d. true)) x3.eol (c ∷ bs)
      ∙ rw (laws.eol_fails c bs h.0 h.1) (laws.char_one (λ d. true) c bs)

  pub line_char-newline : (bs : Bytes) → line_char x3 (10 ∷ bs) ≡ none
  unfolding line_char
  line_char-newline bs =
      laws.except_is (x3.char_ (λ d. true)) x3.eol (10 ∷ bs) ∙ rw (laws.eol_newline bs) refl

  -- The characters of a line up to its line end.
  pub many-line_char :
      (cs rest : Bytes)
      → All IsLineChar cs
      → x3.many (line_char x3) (cs ++ 10 ∷ rest) ≡ some (cs, 10 ∷ rest)
  many-line_char [] rest h =
      many_ends (line_char x3) (line_char-Consumes x3 laws) (10 ∷ rest) (line_char-newline rest)
  many-line_char (c ∷ cs) rest h =
      many_goes (line_char x3) (line_char-Consumes x3 laws) (c ∷ (cs ++ 10 ∷ rest)) c
        (cs ++ 10 ∷ rest) cs (10 ∷ rest) (line_char-some c (cs ++ 10 ∷ rest) h.0)
        (many-line_char cs rest h.1)

  pub end_rule-newline : (rest : Bytes) → end_rule x3 (10 ∷ rest) ≡ some (10 ∷ [], rest)
  unfolding end_rule
  end_rule-newline rest =
      alt-second (x3.string (13 ∷ 10 ∷ [])) (x3.alt (x3.string (13 ∷ [])) (x3.string (10 ∷ [])))
        (10 ∷ rest) (string_fails (13 ∷ 10 ∷ []) (10 ∷ rest) (λ t e. ground (arith, e)))
      ∙ alt-second (x3.string (13 ∷ [])) (x3.string (10 ∷ [])) (10 ∷ rest)
          (string_fails (13 ∷ []) (10 ∷ rest) (λ t e. ground (arith, e)))
      ∙ laws.string_matches (10 ∷ []) rest
