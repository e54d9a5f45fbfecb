-- ===== src/Query/Conf/Grammar/Printed.antt =====
-- A query file as it is written, with a header and a line of text for each query.
use ozo.Prelude.{
  ℕ, ◌≡◌, ◌≢◌, refl, ◌∙◌, inl, inr, arith, false, List, [], ◌∷◌, ◌++◌, none, some, Bytes, All, map,
  Option-cases,
}
use ozo.Prelude.Text.{codes}
use ozo.Query.Conf.{query_line_comment, query_line_text, TextElement, ParsedQuery}
use ozo.Query.Conf.Blocks.{Block, content, block_lines}
use ozo.Query.Conf.Grammar.{
  X3, on, line_char, end_rule, comment_line, text_line, last_line, line_rule, parse_query_text,
}
use ozo.Query.Conf.Grammar.Laws.{IsX3, is_space}
use ozo.Query.Conf.Grammar.Lines.{line_rule-Consumes}
use ozo.Query.Conf.Grammar.Steps.{
  IsLineChar, line_chars-IsLineChar, All-append, string_fails, seq-some, alt-first, alt-second,
  many_ends, many_goes, many-line_char, end_rule-newline,
}

-- A query to be written: its name and its text, with their first characters, and the elements that
-- the text stands for.
pub record Entry : Type 0 where
  pub name_head : ℕ
  pub name_tail : Bytes
  pub text_head : ℕ
  pub text_tail : Bytes
  pub parts : List TextElement

abbrev pub label : Entry → Bytes
label e = codes "name:" ++ e.name_head ∷ e.name_tail

abbrev pub header_line : Entry → Bytes
header_line e = codes "--" ++ (label e ++ 10 ∷ [])

abbrev pub text_value : Entry → Bytes
text_value e = e.text_head ∷ (e.text_tail ++ 10 ∷ [])

abbrev pub file_of : List Entry → Bytes
file_of [] = []
file_of (e ∷ es) = codes "--" ++ (label e ++ 10 ∷ (e.text_head ∷ (e.text_tail ++ 10 ∷ file_of es)))

abbrev pub entry_block : Entry → Block
entry_block e = record {
  header = header_line e;
  name = e.name_head ∷ e.name_tail;
  items = content (text_value e) e.parts ∷ [];
}

abbrev pub entry_query : Entry → ParsedQuery
entry_query e = record { name = e.name_head ∷ e.name_tail; text = e.parts }

module _ (x3 : X3) where
  -- Neither the name nor the text has a line end or NUL, the name does not begin with a space, the
  -- text not with a dash, and the elements are those that the text is parsed into.
  abbrev pub IsEntry : Entry → Type 0
  IsEntry e =
      All IsLineChar (e.name_head ∷ e.name_tail)
      × All IsLineChar (e.text_head ∷ e.text_tail)
      × (is_space e.name_head ≡ false)
      × (e.text_head ≢ 45)
      × (parse_query_text x3 (text_value e) ≡ some e.parts)

pub label-IsLineChar :
    (e : Entry) → All IsLineChar (e.name_head ∷ e.name_tail) → All IsLineChar (label e)
label-IsLineChar e h =
    All-append IsLineChar (codes "name:") (e.name_head ∷ e.name_tail)
      (line_chars-IsLineChar (codes "name:") refl) h

module _ (x3 : X3) (laws : IsX3 x3) where
  comment_line-label :
      (cs rest : Bytes)
      → All IsLineChar cs
      → comment_line x3 (codes "--" ++ (cs ++ 10 ∷ rest))
        ≡ some (query_line_comment (codes "--" ++ (cs ++ 10 ∷ [])), rest)
  unfolding comment_line
  comment_line-label cs rest h =
      let ends = x3.alt (end_rule x3) (on (λ u. []) x3.eoi) in
      let tail = x3.seq (x3.many (line_char x3)) ends in
      let ended =
        alt-first x3 laws (end_rule x3) (on (λ u. []) x3.eoi) (10 ∷ rest) (10 ∷ [], rest)
          (end_rule-newline x3 laws rest) in
      let behind =
        seq-some x3 laws (x3.many (line_char x3)) ends (cs ++ 10 ∷ rest) cs (10 ∷ rest) (10 ∷ [])
          rest (many-line_char x3 laws cs rest h) ended in
      let all =
        seq-some x3 laws (x3.string (codes "--")) tail (codes "--" ++ (cs ++ 10 ∷ rest))
          (codes "--") (cs ++ 10 ∷ rest) (cs, 10 ∷ []) rest
          (laws.string_matches (codes "--") (cs ++ 10 ∷ rest)) behind in
      rw (on, all) refl

  no_comment : (c : ℕ) (bs : Bytes) → c ≢ 45 → comment_line x3 (c ∷ bs) ≡ none
  unfolding comment_line
  no_comment c bs h =
      let tail = x3.seq (x3.many (line_char x3)) (x3.alt (end_rule x3) (on (λ u. []) x3.eoi)) in
      let failed = string_fails x3 laws (codes "--") (c ∷ bs) (λ rest e. ground (arith, e, h)) in
      let none_of : x3.seq (x3.string (codes "--")) tail (c ∷ bs) ≡ none =
        laws.seq_is (x3.string (codes "--")) tail (c ∷ bs) ∙ rw failed refl in
      rw (on, none_of) refl

  text_line-chars :
      (cs rest : Bytes)
      → All IsLineChar cs
      → text_line x3 (cs ++ 10 ∷ rest) ≡ some (query_line_text (cs ++ 10 ∷ []), rest)
  unfolding text_line
  text_line-chars cs rest h =
      let all =
        seq-some x3 laws (x3.many (line_char x3)) (end_rule x3) (cs ++ 10 ∷ rest) cs (10 ∷ rest)
          (10 ∷ []) rest (many-line_char x3 laws cs rest h) (end_rule-newline x3 laws rest) in
      rw (on, all) refl

  line_rule-comment :
      (e : Entry) (rest : Bytes)
      → All IsLineChar (label e)
      → line_rule x3 (codes "--" ++ (label e ++ 10 ∷ rest))
        ≡ some (query_line_comment (header_line e), rest)
  unfolding line_rule
  line_rule-comment e rest h =
      alt-first x3 laws (comment_line x3) (x3.alt (text_line x3) (last_line x3))
        (codes "--" ++ (label e ++ 10 ∷ rest)) (query_line_comment (header_line e), rest)
        (comment_line-label (label e) rest h)

  line_rule-text :
      (e : Entry) (rest : Bytes)
      → All IsLineChar (e.text_head ∷ e.text_tail)
      → e.text_head ≢ 45
      → line_rule x3 (e.text_head ∷ (e.text_tail ++ 10 ∷ rest))
        ≡ some (query_line_text (text_value e), rest)
  unfolding line_rule
  line_rule-text e rest h n =
      let bs = e.text_head ∷ (e.text_tail ++ 10 ∷ rest) in
      alt-second x3 laws (comment_line x3) (x3.alt (text_line x3) (last_line x3)) bs
        (no_comment e.text_head (e.text_tail ++ 10 ∷ rest) n)
      ∙ alt-first x3 laws (text_line x3) (last_line x3) bs (query_line_text (text_value e), rest)
          (text_line-chars (e.text_head ∷ e.text_tail) rest h)

  line_rule_end : line_rule x3 [] ≡ none
  line_rule_end = elim (Option-cases (line_rule x3 [])) [
    | inl e ↦ e
    | inr ((line, rest), e) ↦
        let less = line_rule-Consumes x3 laws [] line rest e in absurd (omega (arith, less))
  ]

  pub many-line_rule :
      (es : List Entry)
      → All (IsEntry x3) es
      → x3.many (line_rule x3) (file_of es) ≡ some (block_lines (map entry_block es), [])
  many-line_rule [] h =
      many_ends x3 laws (line_rule x3) (line_rule-Consumes x3 laws) [] line_rule_end
  many-line_rule (e ∷ es) h =
      let takes = line_rule-Consumes x3 laws in
      let entry = h.0 in
      let behind = e.text_head ∷ (e.text_tail ++ 10 ∷ file_of es) in
      let lines = block_lines (map entry_block es) in
      let text_taken =
        many_goes x3 laws (line_rule x3) takes behind (query_line_text (text_value e)) (file_of es)
          lines [] (line_rule-text e (file_of es) entry.1 entry.3) (many-line_rule es h.1) in
      many_goes x3 laws (line_rule x3) takes (file_of (e ∷ es)) (query_line_comment (header_line e))
        behind (query_line_text (text_value e) ∷ lines) []
        (line_rule-comment e behind (label-IsLineChar e entry.0)) text_taken
