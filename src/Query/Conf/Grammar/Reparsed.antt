-- ===== src/Query/Conf/Grammar/Reparsed.antt =====
-- A query file that is written is parsed into the queries that it was written from.
use ozo.Prelude.{
  ℕ, ◌≡◌, ◌≢◌, refl, ap, ◌∙◌, arith, false, List, [], ◌∷◌, ◌++◌, Option, some, Bytes, All, map,
  length, append-nil,
}
use ozo.Prelude.Result.{ok}
use ozo.Prelude.Text.{codes}
use ozo.Query.Conf.{parse_query_conf}
use ozo.Query.Conf.Blocks.{block_lines, block_query, IsBlock, parse_query_conf_elements-blocks}
use ozo.Query.Conf.Grammar.{
  X3, on, line_char, line_rule, conf_rule, parse_query_conf_lines, header_rule, parse_query_header,
  parse_query_text,
}
use ozo.Query.Conf.Grammar.Laws.{Consumes, IsX3, is_space}
use ozo.Query.Conf.Grammar.Lines.{line_char-Consumes}
use ozo.Query.Conf.Grammar.Steps.{
  IsLineChar, seq-some, many_ends, many1_goes, line_char-some, many-line_char,
}
use ozo.Query.Conf.Grammar.Printed.{
  Entry, label, header_line, file_of, entry_block, entry_query, IsEntry, label-IsLineChar,
  many-line_rule,
}

abbrev NotNul : ℕ → Type 0
NotNul b = b ≢ 0

line-NotNul : (cs rest : Bytes) → All IsLineChar cs → All NotNul rest → All NotNul (cs ++ 10 ∷ rest)
line-NotNul [] rest h k = (λ e. ground (arith, e), k)
line-NotNul (c ∷ cs) rest h k = (h.0.2, line-NotNul cs rest h.1 k)

dashes-NotNul : (bs : Bytes) → All NotNul bs → All NotNul (codes "--" ++ bs)
dashes-NotNul bs h = ((λ e. ground (arith, e)), ((λ e. ground (arith, e)), h))

module _ (x3 : X3) (laws : IsX3 x3) where
  file_of-NotNul : (es : List Entry) → All (IsEntry x3) es → All NotNul (file_of es)
  file_of-NotNul [] h = tt
  file_of-NotNul (e ∷ es) h =
      let entry = h.0 in
      let behind = e.text_head ∷ (e.text_tail ++ 10 ∷ file_of es) in
      dashes-NotNul (label e ++ 10 ∷ behind) (
        line-NotNul (label e) behind (label-IsLineChar e entry.0)
          (line-NotNul (e.text_head ∷ e.text_tail) (file_of es) entry.1 (file_of-NotNul es h.1)))

  lines_of-file :
      (es : List Entry)
      → All (IsEntry x3) es
      → parse_query_conf_lines x3 (file_of es) ≡ some (block_lines (map entry_block es))
  unfolding parse_query_conf_lines conf_rule
  lines_of-file es h =
      let lines = block_lines (map entry_block es) in
      let all =
        seq-some x3 laws (x3.many (line_rule x3)) x3.eoi (file_of es) lines [] tt []
          (many-line_rule x3 laws es h) laws.eoi_end in
      let parsed : conf_rule x3 (file_of es) ≡ some (lines, []) = rw (conf_rule, on, all) refl in
      laws.phrase_parse_is (conf_rule x3) 0 (file_of es) (file_of-NotNul es h) ∙ rw parsed refl

  space-Consumes : Consumes x3.space
  space-Consumes bs c rest e =
      let taken : length bs ≡ length (c ∷ rest) = ap length (laws.space_matched bs c rest e) in
      omega (arith, taken)

  no_spaces :
      (c : ℕ) (bs : Bytes) → is_space c ≡ false → x3.many x3.space (c ∷ bs) ≡ some ([], c ∷ bs)
  no_spaces c bs h = many_ends x3 laws x3.space space-Consumes (c ∷ bs) (laws.space_fails c bs h)

  optional-eol : x3.optional x3.eol (10 ∷ []) ≡ some (some tt, [])
  optional-eol = laws.optional_is x3.eol (10 ∷ []) ∙ rw (laws.eol_newline []) refl

  parse_query_header-header_line :
      (e : Entry)
      → All IsLineChar (e.name_head ∷ e.name_tail)
      → is_space e.name_head ≡ false
      → parse_query_header x3 (header_line e) ≡ some (e.name_head ∷ e.name_tail)
  unfolding parse_query_header header_rule
  parse_query_header-header_line e h s =
      let name = e.name_head ∷ e.name_tail in
      let rest = name ++ 10 ∷ [] in
      let ending = x3.seq (x3.optional x3.eol) x3.eoi in
      let named = x3.seq (x3.many1 (line_char x3)) ending in
      let spaced = x3.seq (x3.many x3.space) named in
      let colon = x3.seq (x3.string (codes ":")) spaced in
      let colon' = x3.seq (x3.many x3.space) colon in
      let word = x3.seq (x3.string (codes "name")) colon' in
      let word' = x3.seq (x3.many x3.space) word in
      let e₁ =
        seq-some x3 laws (x3.optional x3.eol) x3.eoi (10 ∷ []) (some tt) [] tt [] optional-eol
          laws.eoi_end in
      let e₂ =
        seq-some x3 laws (x3.many1 (line_char x3)) ending rest name (10 ∷ []) (some tt, tt) []
          (many1_goes x3 laws (line_char x3) (line_char-Consumes x3 laws) rest e.name_head
            (e.name_tail ++ 10 ∷ []) e.name_tail (10 ∷ [])
            (line_char-some x3 laws e.name_head (e.name_tail ++ 10 ∷ []) h.0)
            (many-line_char x3 laws e.name_tail [] h.1))
          e₁ in
      let e₃ =
        seq-some x3 laws (x3.many x3.space) named rest [] rest (name, (some tt, tt)) []
          (no_spaces e.name_head (e.name_tail ++ 10 ∷ []) s) e₂ in
      let e₄ =
        seq-some x3 laws (x3.string (codes ":")) spaced (codes ":" ++ rest) (codes ":") rest
          ([], (name, (some tt, tt))) [] (laws.string_matches (codes ":") rest) e₃ in
      let e₅ =
        seq-some x3 laws (x3.many x3.space) colon (codes ":" ++ rest) [] (codes ":" ++ rest)
          (codes ":", ([], (name, (some tt, tt)))) [] (no_spaces 58 rest refl) e₄ in
      let e₆ =
        seq-some x3 laws (x3.string (codes "name")) colon' (codes "name:" ++ rest) (codes "name")
          (codes ":" ++ rest) ([], (codes ":", ([], (name, (some tt, tt))))) []
          (laws.string_matches (codes "name") (codes ":" ++ rest)) e₅ in
      let e₇ =
        seq-some x3 laws (x3.many x3.space) word (codes "name:" ++ rest) [] (codes "name:" ++ rest)
          (codes "name", ([], (codes ":", ([], (name, (some tt, tt)))))) []
          (no_spaces 110 (codes "ame:" ++ rest) refl) e₆ in
      let e₈ =
        seq-some x3 laws (x3.string (codes "--")) word' (header_line e) (codes "--")
          (codes "name:" ++ rest)
          ([], (codes "name", ([], (codes ":", ([], (name, (some tt, tt))))))) []
          (laws.string_matches (codes "--") (codes "name:" ++ rest)) e₇ in
      let parsed : header_rule x3 (header_line e) ≡ some (name, []) =
        rw (header_rule, on, e₈) refl in
      laws.phrase_parse_is (header_rule x3) 0 (header_line e)
        (dashes-NotNul (label e ++ 10 ∷ []) (line-NotNul (label e) [] (label-IsLineChar e h) tt))
      ∙ rw parsed refl

  entries-IsBlock :
      (es : List Entry)
      → All (IsEntry x3) es
      → All (IsBlock (parse_query_header x3) (parse_query_text x3)) (map entry_block es)
  entries-IsBlock [] h = tt
  entries-IsBlock (e ∷ es) h =
      let entry = h.0 in
      ((parse_query_header-header_line e entry.0 entry.2, (entry.4, tt)), entries-IsBlock es h.1)

  map-block_query : (es : List Entry) → map block_query (map entry_block es) ≡ map entry_query es
  map-block_query [] = refl
  map-block_query (e ∷ es) =
      let text : block_query (entry_block e) ≡ entry_query e =
        ap (λ parts. record { name = e.name_head ∷ e.name_tail; text = parts })
          (append-nil e.parts) in
      rw (text, map-block_query es) refl

  -- A file that is written with a header `--name:` and a line of text for each of any queries is
  -- parsed into exactly these queries, in order, with their names and the elements of their texts,
  -- where names and texts have no line end and no NUL, no name begins with a space and no text with a
  -- dash, and the grammar of texts accepts each text.
  pub parse_query_conf-file_of :
      (lexical_convert : Bytes → Option ℕ) (trim : Bytes → Bytes) (es : List Entry)
      → All (IsEntry x3) es
      → parse_query_conf
          (parse_query_conf_lines x3)
          (parse_query_header x3)
          (parse_query_text x3)
          lexical_convert
          trim
          (file_of es)
        ≡ ok (map entry_query es)
  unfolding parse_query_conf
  parse_query_conf-file_of lexical_convert trim es h =
      rw (parse_query_conf, lines_of-file es h)
        (parse_query_conf_elements-blocks (parse_query_header x3) (parse_query_text x3) []
            (map entry_block es) tt (entries-IsBlock es h)
          ∙ ap ok (map-block_query es))
