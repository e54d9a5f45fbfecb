-- ===== src/Query/Conf/Grammar/Lines.antt =====
-- The grammar of the lines: every text is made of lines, which spell it.
use ozo.Prelude.{ap, ◌∙◌, inl, inr, arith, true, [], ◌∷◌, ◌++◌, Bytes, append-nil}
use ozo.Prelude.Text.{codes}
use ozo.Query.Conf.{Line, query_line_comment, query_line_text}
use ozo.Query.Conf.Grammar.{
  Parser, X3, on, line_char, end_rule, comment_line, text_line, last_line, line_rule,
}
use ozo.Query.Conf.Grammar.Laws.{Consumes, IsX3}
use ozo.Query.Conf.Grammar.Spells.{
  Spells, one, concat_one, on-Spells, on-Consumes, alt-Spells, except-Spells, seq-Spells,
  string-Spells, char-Spells, eoi-Spells,
}
use ozo.Query.Conf.Grammar.Repeats.{
  Spells-Consumes, string-Consumes, alt-Consumes, seq-Consumes, many-Spells, many1-Spells,
  many1-Consumes,
}

-- The text of a line in the file, with its line end.
abbrev pub line_value : Line → Bytes
line_value (query_line_comment value) = value
line_value (query_line_text value) = value

module _ (x3 : X3) (laws : IsX3 x3) where
  pub line_char-Spells : Spells (line_char x3) one
  unfolding line_char
  line_char-Spells =
      except-Spells x3 laws (x3.char_ (λ c. true)) one x3.eol (char-Spells x3 laws (λ c. true))

  pub line_char-Consumes : Consumes (line_char x3)
  line_char-Consumes = Spells-Consumes (line_char x3) one line_char-Spells (λ c. omega arith)

  chars-Spells : Spells (x3.many (line_char x3)) (λ v. v)
  chars-Spells bs v rest e =
      many-Spells x3 laws (line_char x3) line_char-Consumes one line_char-Spells bs v rest e
      ∙ ap (λ t. t ++ rest) (concat_one v)

  some_chars-Spells : Spells (x3.many1 (line_char x3)) (λ v. v)
  some_chars-Spells bs v rest e =
      many1-Spells x3 laws (line_char x3) line_char-Consumes one line_char-Spells bs v rest e
      ∙ ap (λ t. t ++ rest) (concat_one v)

  end_rule-Spells : Spells (end_rule x3) (λ v. v)
  unfolding end_rule
  end_rule-Spells =
      alt-Spells x3 laws (x3.string (13 ∷ 10 ∷ [])) (λ v. v)
        (x3.alt (x3.string (13 ∷ [])) (x3.string (10 ∷ []))) (string-Spells x3 laws (13 ∷ 10 ∷ []))
        (alt-Spells x3 laws (x3.string (13 ∷ [])) (λ v. v) (x3.string (10 ∷ []))
          (string-Spells x3 laws (13 ∷ [])) (string-Spells x3 laws (10 ∷ [])))

  end_rule-Consumes : Consumes (end_rule x3)
  unfolding end_rule
  end_rule-Consumes =
      alt-Consumes x3 laws (x3.string (13 ∷ 10 ∷ []))
        (x3.alt (x3.string (13 ∷ [])) (x3.string (10 ∷ [])))
        (string-Consumes x3 laws (13 ∷ 10 ∷ []) (omega arith))
        (alt-Consumes x3 laws (x3.string (13 ∷ [])) (x3.string (10 ∷ []))
          (string-Consumes x3 laws (13 ∷ []) (omega arith))
          (string-Consumes x3 laws (10 ∷ []) (omega arith)))

  abbrev end_or_eoi : Parser Bytes
  end_or_eoi = x3.alt (end_rule x3) (on (λ u. []) x3.eoi)

  end_or_eoi-Spells : Spells end_or_eoi (λ v. v)
  end_or_eoi-Spells =
      alt-Spells x3 laws (end_rule x3) (λ v. v) (on (λ u. []) x3.eoi) end_rule-Spells
        (on-Spells (λ u. []) x3.eoi (λ v. v) (eoi-Spells x3 laws))

  abbrev comment_tail : Parser (Bytes × Bytes)
  comment_tail = x3.seq (x3.many (line_char x3)) end_or_eoi

  comment_tail-Spells : Spells comment_tail (λ c. c.0 ++ c.1)
  comment_tail-Spells =
      seq-Spells x3 laws (x3.many (line_char x3)) (λ v. v) end_or_eoi (λ v. v) chars-Spells
        end_or_eoi-Spells

  comment_line-Spells : Spells (comment_line x3) line_value
  unfolding comment_line
  comment_line-Spells =
      on-Spells (λ a. query_line_comment (a.0 ++ (a.1.0 ++ a.1.1)))
        (x3.seq (x3.string (codes "--")) comment_tail) line_value
        (seq-Spells x3 laws (x3.string (codes "--")) (λ v. v) comment_tail (λ c. c.0 ++ c.1)
          (string-Spells x3 laws (codes "--")) comment_tail-Spells)

  comment_line-Consumes : Consumes (comment_line x3)
  unfolding comment_line
  comment_line-Consumes =
      on-Consumes (λ a. query_line_comment (a.0 ++ (a.1.0 ++ a.1.1)))
        (x3.seq (x3.string (codes "--")) comment_tail)
        (seq-Consumes x3 laws (x3.string (codes "--")) comment_tail (λ v. v) (λ c. c.0 ++ c.1)
          (string-Spells x3 laws (codes "--")) comment_tail-Spells
          (inl (string-Consumes x3 laws (codes "--") (omega arith))))

  text_line-Spells : Spells (text_line x3) line_value
  unfolding text_line
  text_line-Spells =
      on-Spells (λ a. query_line_text (a.0 ++ a.1)) (x3.seq (x3.many (line_char x3)) (end_rule x3))
        line_value
        (seq-Spells x3 laws (x3.many (line_char x3)) (λ v. v) (end_rule x3) (λ v. v) chars-Spells
          end_rule-Spells)

  text_line-Consumes : Consumes (text_line x3)
  unfolding text_line
  text_line-Consumes =
      on-Consumes (λ a. query_line_text (a.0 ++ a.1))
        (x3.seq (x3.many (line_char x3)) (end_rule x3))
        (seq-Consumes x3 laws (x3.many (line_char x3)) (end_rule x3) (λ v. v) (λ v. v) chars-Spells
          end_rule-Spells (inr end_rule-Consumes))

  abbrev some_text : Parser Line
  some_text = on query_line_text (x3.many1 (line_char x3))

  some_text-Spells : Spells some_text line_value
  some_text-Spells =
      on-Spells query_line_text (x3.many1 (line_char x3)) line_value some_chars-Spells

  last_line-Spells : Spells (last_line x3) line_value
  unfolding last_line
  last_line-Spells =
      on-Spells (λ a. a.0) (x3.seq some_text x3.eoi) line_value
        (λ bs c rest e.
          seq-Spells x3 laws some_text line_value x3.eoi (λ u. []) some_text-Spells
            (eoi-Spells x3 laws) bs c rest e
          ∙ ap (λ t. t ++ rest) (append-nil (line_value c.0)))

  last_line-Consumes : Consumes (last_line x3)
  unfolding last_line
  last_line-Consumes =
      on-Consumes (λ a. a.0) (x3.seq some_text x3.eoi)
        (seq-Consumes x3 laws some_text x3.eoi line_value (λ u. []) some_text-Spells
          (eoi-Spells x3 laws)
          (inl (
            on-Consumes query_line_text (x3.many1 (line_char x3))
              (many1-Consumes x3 laws (line_char x3) line_char-Consumes one line_char-Spells))))

  pub line_rule-Spells : Spells (line_rule x3) line_value
  unfolding line_rule
  line_rule-Spells =
      alt-Spells x3 laws (comment_line x3) line_value (x3.alt (text_line x3) (last_line x3))
        comment_line-Spells
        (alt-Spells x3 laws (text_line x3) line_value (last_line x3) text_line-Spells
          last_line-Spells)

  pub line_rule-Consumes : Consumes (line_rule x3)
  unfolding line_rule
  line_rule-Consumes =
      alt-Consumes x3 laws (comment_line x3) (x3.alt (text_line x3) (last_line x3))
        comment_line-Consumes
        (alt-Consumes x3 laws (text_line x3) (last_line x3) text_line-Consumes last_line-Consumes)
