-- ===== src/Query/Conf/Tests.antt =====
-- A file of one query with a parameter, under small grammars.
use ozo.Prelude.{ℕ, ◌≡◌, refl, inl, List, [], ◌∷◌, Option, none, some, Bytes}
use ozo.Prelude.Result.{ok}
use ozo.Prelude.Text.{codes, to_string, bytes_eq, decimal}
use ozo.Query.Conf.{
  Line, TextElement, query_text_part, query_parameter_name, members, Declaration, find_key,
  parameter_number, visit_part, visit_parts, describe, describe_declared, make_query_descriptions,
  count, check_for_duplicates, check_for_undefined, get_description, parse_query_conf,
  make_query_repository, parse_query_conf_elements, visit_lines, visit, parse_header, parse_text,
  insert_back,
}
use ozo.Query.Conf.Blocks.{Block, content, block_lines}
use ozo.Query.Conf.Repository.{make_query_repository-get_description}

-- A comment that is not empty is a header, and a text is one part and the parameter `id`.
header : Bytes → Option Bytes
header [] = none
header (c ∷ cs) = some (c ∷ cs)

abbrev text : Bytes → Option (List TextElement)
text value = some (query_text_part value ∷ query_parameter_name (codes "id") ∷ [])

abbrev block : Block
block = record {
  header = codes "q";
  name = codes "q";
  items =
      content (codes "a") (query_text_part (codes "a") ∷ query_parameter_name (codes "id") ∷ [])
      ∷ [];
}

abbrev lexical_convert : Bytes → Option ℕ
lexical_convert value = none

abbrev trim : Bytes → Bytes
trim value = value

abbrev query : Declaration
query = record { name = codes "q"; parameters = members (codes "id" ∷ []) }

abbrev lines : Bytes → Option (List Line)
lines range = some (block_lines (block ∷ []))

made :
    make_query_repository lines header text lexical_convert trim (query ∷ []) []
    ≡ ok (record { name = codes "q"; text = codes "a$1" } ∷ [])
unfolding make_query_repository check_for_duplicates count parse_query_conf
    parse_query_conf_elements visit_lines visit parse_header parse_text insert_back
    check_for_undefined make_query_descriptions describe_declared describe visit_parts visit_part
    parameter_number find_key bytes_eq header to_string decimal
made = refl

make_query_repository-get_description_example :
    (t : Bytes) × (get_description
        (record { name = codes "q"; text = codes "a$1" } ∷ [])
        (codes "q")
      ≡ some t)
make_query_repository-get_description_example =
    make_query_repository-get_description lines header text lexical_convert trim (query ∷ []) []
      (record { name = codes "q"; text = codes "a$1" } ∷ []) query made (inl refl)
