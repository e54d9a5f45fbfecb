-- ===== src/Query/Conf/Grammar.antt =====
-- The grammars of include/ozo/query_conf.h: those of the lines of a file, of a header and of a text.
-- Boost.Spirit X3, whose parsers they are made of, is a parameter. A parser gives its attribute and
-- what it leaves; a rule is what it matches, and its semantic action a function of the attribute.
pub mod Laws
pub mod Spells
pub mod Repeats
pub mod Lines
pub mod Whole
pub mod Texts
pub mod Steps
pub mod Printed
pub mod Reparsed
pub mod Peg
mod Tests
use ozo.Prelude.{
  ℕ, ◌≡◌, Bool, true, not, ◌&&◌, ◌||◌, List, [], ◌∷◌, ◌++◌, ◌==◌, leb, Option, none, some, Bytes,
}
use ozo.Prelude.Text.{codes}
use ozo.Query.Conf.{
  Line, query_line_comment, query_line_text, TextElement, query_text_part, query_parameter_name,
}

abbrev pub Parser : Type 0 → Type 0
Parser A = Bytes → Option (A × Bytes)

-- The parsers of X3 and its operators: `p - q`, `p >> q`, `p | q`, `*p`, `+p` and `-p`; and
-- `phrase_parse` with the character that its skipper skips.
pub record X3 : Type 1 where
  pub string : Bytes → Parser Bytes
  pub char_ : (ℕ → Bool) → Parser ℕ
  pub space : Parser ℕ
  pub eol : Parser (Unit {0})
  pub eoi : Parser (Unit {0})
  pub except : {A B : Type 0} → Parser A → Parser B → Parser A
  pub seq : {A B : Type 0} → Parser A → Parser B → Parser (A × B)
  pub alt : {A : Type 0} → Parser A → Parser A → Parser A
  pub many : {A : Type 0} → Parser A → Parser (List A)
  pub many1 : {A : Type 0} → Parser A → Parser (List A)
  pub optional : {A : Type 0} → Parser A → Parser (Option A)
  pub phrase_parse : {A : Type 0} → Parser A → ℕ → Bytes → Option A

-- A semantic action.
abbrev pub on : {A B : Type 0} → (A → B) → Parser A → Parser B
on action p bytes = elim (p bytes) [ none ↦ none | some r ↦ some (action r.0, r.1) ]

-- `on_comment` and `on_text` of the lines, on what `to_string_visitor` makes of the attribute.
abbrev pub on_comment : Bytes → Line
on_comment value = query_line_comment value

abbrev pub on_text : Bytes → Line
on_text value = query_line_text value

-- `to_string_visitor` on a sequence of texts.
abbrev pub concat : List Bytes → Bytes
concat [] = []
concat (value ∷ values) = value ++ concat values

-- `char_("_0-9A-Za-z")`
abbrev pub is_name_char : ℕ → Bool
is_name_char c = c == 95 || leb 48 c && leb c 57 || leb 65 c && leb c 90 || leb 97 c && leb c 122

module _ (x3 : X3) where
  -- `char_ - eol`
  unfoldable pub line_char : Parser ℕ
  line_char = x3.except (x3.char_ (λ c. true)) x3.eol

  -- `end_def`
  unfoldable pub end_rule : Parser Bytes
  end_rule = x3.alt (x3.string (13 ∷ 10 ∷ [])) (x3.alt (x3.string (13 ∷ [])) (x3.string (10 ∷ [])))

  -- `string("--") >> *(char_ - eol) >> (end | eoi)` with `on_comment`
  unfoldable pub comment_line : Parser Line
  comment_line =
      on (λ a. on_comment (a.0 ++ (a.1.0 ++ a.1.1)))
        (x3.seq (x3.string (codes "--"))
          (x3.seq (x3.many line_char) (x3.alt end_rule (on (λ u. []) x3.eoi))))

  -- `*(char_ - eol) >> end` with `on_text`
  unfoldable pub text_line : Parser Line
  text_line = on (λ a. on_text (a.0 ++ a.1)) (x3.seq (x3.many line_char) end_rule)

  -- `+(char_ - eol)` with `on_text`, `>> eoi`
  unfoldable pub last_line : Parser Line
  last_line = on (λ a. a.0) (x3.seq (on on_text (x3.many1 line_char)) x3.eoi)

  -- `line_def`
  unfoldable pub line_rule : Parser Line
  line_rule = x3.alt comment_line (x3.alt text_line last_line)

  -- `conf_def`
  unfoldable pub conf_rule : Parser (List Line)
  conf_rule = on (λ a. a.0) (x3.seq (x3.many line_rule) x3.eoi)

  -- `parse_query_conf_lines`, `none` where it throws
  unfoldable pub parse_query_conf_lines : Bytes → Option (List Line)
  parse_query_conf_lines range = x3.phrase_parse conf_rule 0 range

  -- `header_def`: the name.
  unfoldable pub header_rule : Parser Bytes
  header_rule =
      on (λ a. a.1.1.1.1.1.1.0)
        (x3.seq (x3.string (codes "--")) (
          x3.seq (x3.many x3.space) (
            x3.seq (x3.string (codes "name")) (
              x3.seq (x3.many x3.space) (
                x3.seq (x3.string (codes ":")) (
                  x3.seq (x3.many x3.space)
                    (x3.seq (x3.many1 line_char) (x3.seq (x3.optional x3.eol) x3.eoi))))))))

  unfoldable pub parse_query_header : Bytes → Option Bytes
  parse_query_header comment = x3.phrase_parse header_rule 0 comment

  -- `char_ - char_(':') - char_('\0')`
  unfoldable pub plain_char : Parser ℕ
  plain_char =
      x3.except (x3.except (x3.char_ (λ c. true)) (x3.char_ (λ c. c == 58)))
        (x3.char_ (λ c. c == 0))

  -- `text_part_def`
  unfoldable pub text_part_rule : Parser Bytes
  text_part_rule = on concat (
      x3.many1
        (x3.alt (x3.string (codes "::")) (x3.alt (x3.string (codes ":=")) (x3.many1 plain_char))))

  -- `parameter_name_def`
  unfoldable pub parameter_name_rule : Parser Bytes
  parameter_name_rule =
      on (λ a. a.1) (x3.seq (x3.string (codes ":")) (x3.many1 (x3.char_ is_name_char)))

  -- `parameter_name[on_parameter_name] | text_part[on_text]`
  unfoldable pub element_rule : Parser TextElement
  element_rule =
      x3.alt (on query_parameter_name parameter_name_rule) (on query_text_part text_part_rule)

  -- `text_def`
  unfoldable pub text_rule : Parser (List TextElement)
  text_rule = on (λ a. a.0) (x3.seq (x3.many element_rule) x3.eoi)

  unfoldable pub parse_query_text : Bytes → Option (List TextElement)
  parse_query_text value = x3.phrase_parse text_rule 0 value
