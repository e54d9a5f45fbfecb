-- ===== src/Query/Conf/Grammar/Whole.antt =====
-- Every text is parsed into lines.
use mathlib.Core.Option.{some-injective}
use ozo.Prelude.{
  ℕ, ◌≡◌, ◌≢◌, refl, sym, ap, ◌∙◌, ◌⊎◌, inl, inr, arith, true, List, [], ◌∷◌, ◌++◌, ◌==◌, none,
  some, Bytes, All, append-nil, Option-cases, Bool-cases, ==_iff,
}
use ozo.Query.Conf.{Line, query_line_text}
use ozo.Query.Conf.Grammar.{
  Parser, X3, on, line_char, end_rule, comment_line, text_line, last_line, line_rule, conf_rule,
  parse_query_conf_lines,
}
use ozo.Query.Conf.Grammar.Laws.{IsX3}
use ozo.Query.Conf.Grammar.Spells.{concat_map, one}
use ozo.Query.Conf.Grammar.Repeats.{many-Repeats}
use ozo.Query.Conf.Grammar.Lines.{
  line_value, line_char-Spells, line_char-Consumes, line_rule-Spells, line_rule-Consumes,
}

abbrev Matches : {A : Type 0} → Parser A → Bytes → Type 0
Matches {A} p bs = (r : A × Bytes) × (p bs ≡ some r)

module _ (x3 : X3) (laws : IsX3 x3) where
  module _ {A : Type 0} (p q : Parser A) (bs : Bytes) where
    alt-Matches : Matches p bs ⊎ Matches q bs → Matches (x3.alt p q) bs
    alt-Matches (inl (r, e)) = (r, laws.alt_is p q bs ∙ rw e refl)
    alt-Matches (inr (r, e)) = elim (Option-cases (p bs)) [
      | inl f ↦ (r, laws.alt_is p q bs ∙ rw (f, e) refl)
      | inr (s, f) ↦ (s, laws.alt_is p q bs ∙ rw f refl)
    ]

  seq-Matches :
      {A B : Type 0} (p : Parser A) (q : Parser B) (bs : Bytes) (a : A) (rest : Bytes)
      → p bs ≡ some (a, rest)
      → Matches q rest
      → Matches (x3.seq p q) bs
  seq-Matches p q bs a rest e (r, f) =
      (((a, r.0), r.1), laws.seq_is p q bs ∙ rw e (rw (on, f) refl))

  on-Matches :
      {A B : Type 0} (action : A → B) (p : Parser A) (bs : Bytes)
      → Matches p bs
      → Matches (on action p) bs
  on-Matches action p bs (r, e) = ((action r.0, r.1), rw (on, e) refl)

  end_rule-Matches : (c : ℕ) (bs : Bytes) → (c ≡ 13) ⊎ (c ≡ 10) → Matches (end_rule x3) (c ∷ bs)
  unfolding end_rule
  end_rule-Matches c bs h =
      alt-Matches (x3.string (13 ∷ 10 ∷ [])) (x3.alt (x3.string (13 ∷ [])) (x3.string (10 ∷ [])))
        (c ∷ bs)
        (inr (
          alt-Matches (x3.string (13 ∷ [])) (x3.string (10 ∷ [])) (c ∷ bs) (elim h [
            | inl e ↦ inl (rw e ((13 ∷ [], bs), laws.string_matches (13 ∷ []) bs))
            | inr e ↦ inr (rw e ((10 ∷ [], bs), laws.string_matches (10 ∷ []) bs))
          ])))

  -- Where no character of a line comes, a line end does.
  line_char-none : (c : ℕ) (bs : Bytes) → line_char x3 (c ∷ bs) ≡ none → (c ≡ 13) ⊎ (c ≡ 10)
  unfolding line_char
  line_char-none c bs h = elim (Bool-cases (c == 13)) [
    | inl e ↦ inl ((==_iff c 13).0 e)
    | inr e ↦ elim (Bool-cases (c == 10)) [
      | inl f ↦ inr ((==_iff c 10).0 f)
      | inr f ↦
          let no_eol = laws.eol_fails c bs (ground (arith, e)) (ground (arith, f)) in
          let kept : line_char x3 (c ∷ bs) ≡ some (c, bs) =
            laws.except_is (x3.char_ (λ c. true)) x3.eol (c ∷ bs)
            ∙ rw no_eol (laws.char_one (λ c. true) c bs) in
          ground (arith, sym kept ∙ h)
    ]
  ]

  text_line-Matches :
      (bs more : Bytes) (d : ℕ) (rest : Bytes)
      → x3.many (line_char x3) bs ≡ some (more, d ∷ rest)
      → line_char x3 (d ∷ rest) ≡ none
      → Matches (text_line x3) bs
  unfolding text_line
  text_line-Matches bs more d rest e ends =
      on-Matches (λ a. query_line_text (a.0 ++ a.1)) (x3.seq (x3.many (line_char x3)) (end_rule x3))
        bs
        (seq-Matches (x3.many (line_char x3)) (end_rule x3) bs more (d ∷ rest) e
          (end_rule-Matches d rest (line_char-none d rest ends)))

  -- A line that takes all that is left has a character.
  last_line-Matches :
      (c : ℕ) (bs more : Bytes)
      → x3.many (line_char x3) (c ∷ bs) ≡ some (more, [])
      → Matches (last_line x3) (c ∷ bs)
  unfolding last_line
  last_line-Matches c bs more e = elim (Option-cases (line_char x3 (c ∷ bs))) [
    | inl f ↦
        let nothing : x3.many (line_char x3) (c ∷ bs) ≡ some ([], c ∷ bs) =
          laws.many_is (line_char x3) (c ∷ bs) (line_char-Consumes x3 laws) ∙ rw f refl in
        ground (arith, ap (λ r. r.1) (some-injective _ _ (sym nothing ∙ e)))
    | inr (r, f) ↦
        let behind = on (λ l. r.0 ∷ l) (x3.many (line_char x3)) r.1 in
        let once : x3.many1 (line_char x3) (c ∷ bs) ≡ behind =
          laws.many1_is (line_char x3) (c ∷ bs) (line_char-Consumes x3 laws) ∙ rw f refl in
        let any : x3.many (line_char x3) (c ∷ bs) ≡ behind =
          laws.many_is (line_char x3) (c ∷ bs) (line_char-Consumes x3 laws) ∙ rw f refl in
        let repeated = once ∙ sym any in
        let some_text = on query_line_text (x3.many1 (line_char x3)) in
        let taken : some_text (c ∷ bs) ≡ some (query_line_text more, []) =
          rw (on, repeated ∙ e) refl in
        on-Matches (λ a. a.0) (x3.seq some_text x3.eoi) (c ∷ bs)
          (seq-Matches some_text x3.eoi (c ∷ bs) (query_line_text more) [] taken
            ((tt, []), laws.eoi_end))
  ]

  rest-Matches :
      (c : ℕ) (bs more rest : Bytes)
      → x3.many (line_char x3) (c ∷ bs) ≡ some (more, rest)
      → line_char x3 rest ≡ none
      → Matches (text_line x3) (c ∷ bs) ⊎ Matches (last_line x3) (c ∷ bs)
  rest-Matches c bs more [] e ends = inr (last_line-Matches c bs more e)
  rest-Matches c bs more (d ∷ rest) e ends = inl (text_line-Matches (c ∷ bs) more d rest e ends)

  -- A text that is not empty begins with a line.
  line_rule-Matches : (c : ℕ) (bs : Bytes) → Matches (line_rule x3) (c ∷ bs)
  unfolding line_rule
  line_rule-Matches c bs =
      let (more, rest, goes, spelt, ends) =
        many-Repeats x3 laws (line_char x3) (line_char-Consumes x3 laws) one
          (line_char-Spells x3 laws) (c ∷ bs) in
      alt-Matches (comment_line x3) (x3.alt (text_line x3) (last_line x3)) (c ∷ bs) (
        inr (
          alt-Matches (text_line x3) (last_line x3) (c ∷ bs)
            (rest-Matches c bs more rest goes ends)))

  line_rule-none : (bs : Bytes) → line_rule x3 bs ≡ none → bs ≡ []
  line_rule-none [] h = refl
  line_rule-none (c ∷ bs) h = let (r, e) = line_rule-Matches c bs in ground (arith, sym e ∙ h)

  -- Every text without NUL is parsed into lines, and the lines, with their line ends, spell the text.
  pub parse_query_conf_lines-line_value :
      (range : Bytes)
      → All (λ b. b ≢ 0) range
      → (lines : List Line) × (parse_query_conf_lines x3 range ≡ some lines)
        × (concat_map line_value lines ≡ range)
  unfolding parse_query_conf_lines conf_rule
  parse_query_conf_lines-line_value range h =
      let (lines, rest, goes, spelt, ends) =
        many-Repeats x3 laws (line_rule x3) (line_rule-Consumes x3 laws) line_value
          (line_rule-Spells x3 laws) range in
      let over = line_rule-none rest ends in
      let all : x3.many (line_rule x3) range ≡ some (lines, []) =
        goes ∙ ap (λ t. some (lines, t)) over in
      let matched : x3.seq (x3.many (line_rule x3)) x3.eoi range ≡ some ((lines, tt), []) =
        laws.seq_is (x3.many (line_rule x3)) x3.eoi range ∙ rw all (rw (on, laws.eoi_end) refl) in
      let parsed : conf_rule x3 range ≡ some (lines, []) = rw (conf_rule, on, matched) refl in
      (
        lines,
        laws.phrase_parse_is (conf_rule x3) 0 range h ∙ rw parsed refl,
        sym (
            spelt
            ∙ ap (λ t. concat_map line_value lines ++ t) over
            ∙ append-nil (concat_map line_value lines)),
      )
