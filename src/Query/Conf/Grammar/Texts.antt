-- ===== src/Query/Conf/Grammar/Texts.antt =====
-- The grammar of a text: what it gives spells the text.
use mathlib.Core.Option.{some-injective}
use ozo.Prelude.{
  ◌≡◌, ◌≢◌, refl, sym, ap, ◌∙◌, arith, true, List, [], ◌∷◌, ◌++◌, ◌==◌, some, Bytes, All,
  append-nil,
}
use ozo.Prelude.Text.{codes}
use ozo.Query.Conf.{TextElement, query_text_part, query_parameter_name}
use ozo.Query.Conf.Grammar.{
  Parser, X3, on, concat, is_name_char, plain_char, text_part_rule, parameter_name_rule,
  element_rule, text_rule, parse_query_text,
}
use ozo.Query.Conf.Grammar.Laws.{Consumes, IsX3}
use ozo.Query.Conf.Grammar.Spells.{
  Spells, concat_map, one, concat_one, then-some, on-some, on-Spells, on-Consumes, alt-Spells,
  except-Spells, seq-Spells, string-Spells, char-Spells, eoi-Spells, seq-eoi,
}
use ozo.Query.Conf.Grammar.Repeats.{
  Spells-Consumes, string-Consumes, alt-Consumes, many-Spells, many1-Spells, many1-Consumes,
}

-- The text of an element in the file.
abbrev pub element_text : TextElement → Bytes
element_text (query_text_part value) = value
element_text (query_parameter_name value) = codes ":" ++ value

concat_all : (values : List Bytes) → concat_map (λ v. v) values ≡ concat values
concat_all [] = refl
concat_all (v ∷ values) = ap (λ t. v ++ t) (concat_all values)

module _ (x3 : X3) (laws : IsX3 x3) where
  plain_char-Spells : Spells (plain_char x3) one
  unfolding plain_char
  plain_char-Spells =
      except-Spells x3 laws (x3.except (x3.char_ (λ c. true)) (x3.char_ (λ c. c == 58))) one
        (x3.char_ (λ c. c == 0))
        (except-Spells x3 laws (x3.char_ (λ c. true)) one (x3.char_ (λ c. c == 58))
          (char-Spells x3 laws (λ c. true)))

  plain_char-Consumes : Consumes (plain_char x3)
  plain_char-Consumes = Spells-Consumes (plain_char x3) one plain_char-Spells (λ c. omega arith)

  abbrev part : Parser Bytes
  part =
      x3.alt (x3.string (codes "::")) (x3.alt (x3.string (codes ":=")) (x3.many1 (plain_char x3)))

  plain-Spells : Spells (x3.many1 (plain_char x3)) (λ v. v)
  plain-Spells bs v rest e =
      many1-Spells x3 laws (plain_char x3) plain_char-Consumes one plain_char-Spells bs v rest e
      ∙ ap (λ t. t ++ rest) (concat_one v)

  part-Spells : Spells part (λ v. v)
  part-Spells =
      alt-Spells x3 laws (x3.string (codes "::")) (λ v. v)
        (x3.alt (x3.string (codes ":=")) (x3.many1 (plain_char x3)))
        (string-Spells x3 laws (codes "::"))
        (alt-Spells x3 laws (x3.string (codes ":=")) (λ v. v) (x3.many1 (plain_char x3))
          (string-Spells x3 laws (codes ":=")) plain-Spells)

  part-Consumes : Consumes part
  part-Consumes =
      alt-Consumes x3 laws (x3.string (codes "::"))
        (x3.alt (x3.string (codes ":=")) (x3.many1 (plain_char x3)))
        (string-Consumes x3 laws (codes "::") (omega arith))
        (alt-Consumes x3 laws (x3.string (codes ":=")) (x3.many1 (plain_char x3))
          (string-Consumes x3 laws (codes ":=") (omega arith))
          (many1-Consumes x3 laws (plain_char x3) plain_char-Consumes one plain_char-Spells))

  text_part_rule-Spells : Spells (text_part_rule x3) (λ v. v)
  unfolding text_part_rule
  text_part_rule-Spells =
      on-Spells concat (x3.many1 part) (λ v. v)
        (λ bs values rest e.
          many1-Spells x3 laws part part-Consumes (λ v. v) part-Spells bs values rest e
          ∙ ap (λ t. t ++ rest) (concat_all values))

  text_part_rule-Consumes : Consumes (text_part_rule x3)
  unfolding text_part_rule
  text_part_rule-Consumes =
      on-Consumes concat (x3.many1 part)
        (many1-Consumes x3 laws part part-Consumes (λ v. v) part-Spells)

  name_char-Consumes : Consumes (x3.char_ is_name_char)
  name_char-Consumes =
      Spells-Consumes (x3.char_ is_name_char) one (char-Spells x3 laws is_name_char)
        (λ c. omega arith)

  name-Spells : Spells (x3.many1 (x3.char_ is_name_char)) (λ v. v)
  name-Spells bs v rest e =
      many1-Spells x3 laws (x3.char_ is_name_char) name_char-Consumes one
        (char-Spells x3 laws is_name_char) bs v rest e
      ∙ ap (λ t. t ++ rest) (concat_one v)

  abbrev colon_name : Parser (Bytes × Bytes)
  colon_name = x3.seq (x3.string (codes ":")) (x3.many1 (x3.char_ is_name_char))

  colon-Spells : Spells (x3.string (codes ":")) (λ v. codes ":")
  colon-Spells bs v rest e = (laws.string_matched (codes ":") bs v rest e).1

  colon_name-Spells : Spells colon_name (λ c. codes ":" ++ c.1)
  colon_name-Spells =
      seq-Spells x3 laws (x3.string (codes ":")) (λ v. codes ":") (x3.many1 (x3.char_ is_name_char))
        (λ v. v) colon-Spells name-Spells

  parameter_name_rule-Spells : Spells (parameter_name_rule x3) (λ v. codes ":" ++ v)
  unfolding parameter_name_rule
  parameter_name_rule-Spells =
      on-Spells (λ c. c.1) colon_name (λ v. codes ":" ++ v) colon_name-Spells

  parameter_name_rule-Consumes : Consumes (parameter_name_rule x3)
  unfolding parameter_name_rule
  parameter_name_rule-Consumes =
      on-Consumes (λ c. c.1) colon_name
        (Spells-Consumes colon_name (λ c. codes ":" ++ c.1) colon_name-Spells (λ c. omega arith))

  element_rule-Spells : Spells (element_rule x3) element_text
  unfolding element_rule
  element_rule-Spells =
      alt-Spells x3 laws (on query_parameter_name (parameter_name_rule x3)) element_text
        (on query_text_part (text_part_rule x3))
        (on-Spells query_parameter_name (parameter_name_rule x3) element_text
          parameter_name_rule-Spells)
        (on-Spells query_text_part (text_part_rule x3) element_text text_part_rule-Spells)

  element_rule-Consumes : Consumes (element_rule x3)
  unfolding element_rule
  element_rule-Consumes =
      alt-Consumes x3 laws (on query_parameter_name (parameter_name_rule x3))
        (on query_text_part (text_part_rule x3))
        (on-Consumes query_parameter_name (parameter_name_rule x3) parameter_name_rule-Consumes)
        (on-Consumes query_text_part (text_part_rule x3) text_part_rule-Consumes)

  text_rule-all :
      (bs : Bytes) (elements : List TextElement) (rest : Bytes)
      → text_rule x3 bs ≡ some (elements, rest)
      → bs ≡ concat_map element_text elements
  unfolding text_rule
  text_rule-all bs elements rest e =
      let elements_rule = x3.many (element_rule x3) in
      let (c, f, same) = on-some (λ a. a.0) (x3.seq elements_rule x3.eoi) bs elements rest e in
      let spelt =
        seq-Spells x3 laws elements_rule (concat_map element_text) x3.eoi (λ u. [])
          (many-Spells x3 laws (element_rule x3) element_rule-Consumes element_text
            element_rule-Spells)
          (eoi-Spells x3 laws) bs c rest f in
      let over = seq-eoi x3 laws elements_rule bs c rest f in
      spelt
      ∙ ap (λ t. (concat_map element_text c.0 ++ []) ++ t) over
      ∙ append-nil (concat_map element_text c.0 ++ [])
      ∙ append-nil (concat_map element_text c.0)
      ∙ ap (concat_map element_text) same

  -- The elements that a text without NUL is parsed into spell the whole text, where a parameter's
  -- name is spelt behind a colon.
  pub parse_query_text-element_text :
      (value : Bytes) (elements : List TextElement)
      → All (λ b. b ≢ 0) value
      → parse_query_text x3 value ≡ some elements
      → concat_map element_text elements ≡ value
  unfolding parse_query_text
  parse_query_text-element_text value elements h e =
      let (r, f, same) =
        then-some (text_rule x3 value) (λ r. some r.0) elements
          (sym (laws.phrase_parse_is (text_rule x3) 0 value h) ∙ e) in
      ap (concat_map element_text) (sym (some-injective _ _ same))
      ∙ sym (text_rule-all value r.0 r.1 f)
