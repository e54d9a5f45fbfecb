-- ===== src/Query/Conf/Grammar/Tests.antt =====
-- A small file under parsers that keep the laws.
use ozo.Prelude.{
  ℕ, ◌≡◌, ◌≢◌, refl, arith, Bool, true, not, ◌&&◌, ◌==◌, List, [], ◌∷◌, ◌++◌, none, some, Bytes,
  All, Bool-cases, inl, inr,
}
use ozo.Prelude.Result.{ok}
use ozo.Prelude.Text.{codes}
use ozo.Query.Conf.{
  Line, query_line_comment, query_line_text, TextElement, query_text_part, query_parameter_name,
  parse_query_conf,
}
use ozo.Query.Conf.Grammar.{
  parse_query_conf_lines, parse_query_header, parse_query_text, conf_rule, line_rule, comment_line,
  text_line, last_line, end_rule, line_char, header_rule, text_rule, element_rule,
  parameter_name_rule, text_part_rule, plain_char,
}
use ozo.Query.Conf.Grammar.Spells.{concat_map}
use ozo.Query.Conf.Grammar.Lines.{line_value}
use ozo.Query.Conf.Grammar.Whole.{parse_query_conf_lines-line_value}
use ozo.Query.Conf.Grammar.Texts.{element_text, parse_query_text-element_text}
use ozo.Query.Conf.Grammar.Steps.{line_chars-IsLineChar}
use ozo.Query.Conf.Grammar.Printed.{Entry, file_of, entry_query, IsEntry}
use ozo.Query.Conf.Grammar.Reparsed.{parse_query_conf-file_of}
use ozo.Query.Conf.Grammar.Peg.{peg, peg-IsX3}

abbrev no_nul : Bytes → Bool
no_nul [] = true
no_nul (b ∷ bs) = not (b == 0) && no_nul bs

has_no_nul : (bs : Bytes) → no_nul bs ≡ true → All (λ b. b ≢ 0) bs
has_no_nul [] h = tt
has_no_nul (b ∷ bs) h = elim (Bool-cases (no_nul bs)) [
  | inl e ↦ (ground (arith, h), has_no_nul bs e)
  | inr e ↦ ground (arith, h, e)
]

abbrev file : Bytes
file = codes "-- name: q" ++ 13 ∷ 10 ∷ codes "a=:id::int"

file_lines :
    parse_query_conf_lines peg file
    ≡ some (
        query_line_comment (codes "-- name: q" ++ 13 ∷ 10 ∷ [])
        ∷ query_line_text (codes "a=:id::int")
        ∷ [])
unfolding parse_query_conf_lines conf_rule line_rule comment_line text_line last_line end_rule
    line_char
file_lines = refl

file_header : parse_query_header peg (codes "-- name: q" ++ 13 ∷ 10 ∷ []) ≡ some (codes "q")
unfolding parse_query_header header_rule line_char
file_header = refl

abbrev elements : List TextElement
elements =
    query_text_part (codes "a=")
    ∷ query_parameter_name (codes "id")
    ∷ query_text_part (codes "::int")
    ∷ []

file_text : parse_query_text peg (codes "a=:id::int") ≡ some elements
unfolding parse_query_text text_rule element_rule parameter_name_rule text_part_rule plain_char
file_text = refl

-- A colon before something else is no text.
lone_colon : parse_query_text peg (codes "a : b") ≡ none
unfolding parse_query_text text_rule element_rule parameter_name_rule text_part_rule plain_char
lone_colon = refl

parse_query_conf_lines-line_value_example :
    (lines : List Line) × (parse_query_conf_lines peg file ≡ some lines)
    × (concat_map line_value lines ≡ file)
parse_query_conf_lines-line_value_example =
    parse_query_conf_lines-line_value peg peg-IsX3 file (has_no_nul file refl)

parse_query_text-element_text_example : concat_map element_text elements ≡ codes "a=:id::int"
parse_query_text-element_text_example =
    parse_query_text-element_text peg peg-IsX3 (codes "a=:id::int") elements
      (has_no_nul (codes "a=:id::int") refl) file_text

-- Two queries, q and r.
abbrev entry : ℕ → Entry
entry c = record {
  name_head = c;
  name_tail = [];
  text_head = b'a';
  text_tail = codes "=:id::int";
  parts =
      query_text_part (codes "a=")
      ∷ query_parameter_name (codes "id")
      ∷ query_text_part (codes "::int" ++ 10 ∷ [])
      ∷ [];
}

entry_text : parse_query_text peg (codes "a=:id::int" ++ 10 ∷ []) ≡ some ((entry 0).parts)
unfolding parse_query_text text_rule element_rule parameter_name_rule text_part_rule plain_char
entry_text = refl

q-IsEntry : IsEntry peg (entry b'q')
q-IsEntry = (
  line_chars-IsLineChar (codes "q") refl,
  line_chars-IsLineChar (codes "a=:id::int") refl,
  refl,
  λ e. ground (arith, e),
  entry_text,
)

r-IsEntry : IsEntry peg (entry b'r')
r-IsEntry = (
  line_chars-IsLineChar (codes "r") refl,
  line_chars-IsLineChar (codes "a=:id::int") refl,
  refl,
  λ e. ground (arith, e),
  entry_text,
)

parse_query_conf-file_of_example :
    parse_query_conf
      (parse_query_conf_lines peg)
      (parse_query_header peg)
      (parse_query_text peg)
      (λ value. none)
      (λ value. value)
      (file_of (entry b'q' ∷ entry b'r' ∷ []))
    ≡ ok (entry_query (entry b'q') ∷ entry_query (entry b'r') ∷ [])
parse_query_conf-file_of_example =
    parse_query_conf-file_of peg peg-IsX3 (λ value. none) (λ value. value)
      (entry b'q' ∷ entry b'r' ∷ []) (q-IsEntry, (r-IsEntry, tt))
