-- ===== src/Query/Conf.antt =====
-- include/ozo/query_conf.h: the parts of a query file and the texts of its queries. What the grammars
-- make of a file, of a header and of a text is a parameter, for which Grammar has the source's, as are
-- `boost::trim` and `try_lexical_convert`.
pub mod Blocks
pub mod Grammar
pub mod Keys
pub mod Repository
mod Tests
use ozo.Prelude.{
  ℕ, zero, suc, ◌+◌, ◌≡◌, Bool, true, false, not, List, [], ◌∷◌, ◌++◌, Option, none, some, Bytes,
  leb, map, if◌then◌else◌,
}
use ozo.Prelude.Result.{Result, ok, err, ◌>>=◌, ◌>>◌, throw_if}
use ozo.Prelude.Text.{codes, to_string, bytes_eq}

-- `query_line`
pub data Line : Type 0 where
  query_line_comment query_line_text : Bytes → Line

-- `query_text_element`
pub data TextElement : Type 0 where
  query_text_part query_parameter_name : Bytes → TextElement

pub record ParsedQuery : Type 0 where
  pub name : Bytes
  pub text : List TextElement

-- The exceptions, with the name that their message tells.
pub data Failure : Type 0 where
  expected_comment lines_not_parsed : Failure
  text_not_parsed : List ParsedQuery → Failure
  duplicate_declaration duplicate_definition not_defined not_declared : Bytes → Failure
  parameter_not_found not_numeric out_of_range : Bytes → Failure

pub data StateType : Type 0 where
  initial header_parsed : StateType

-- `line_visitor`
pub record LineVisitor : Type 0 where
  pub state : StateType
  pub queries : List ParsedQuery

-- `queries.back().text.insert(end, ...)`; in the state `header_parsed` there is a last query.
unfoldable pub insert_back : List TextElement → List ParsedQuery → List ParsedQuery
insert_back parts [] = []
insert_back parts (q ∷ []) = record q { text = q.text ++ parts } ∷ []
insert_back parts (q ∷ q' ∷ qs) = q ∷ insert_back parts (q' ∷ qs)

-- The grammars: the name of a header, and the elements of a text; `none` if they do not match.
module _ (header : Bytes → Option Bytes) (text : Bytes → Option (List TextElement)) where
  -- `parse_header`
  unfoldable pub parse_header : Bytes → LineVisitor → LineVisitor
  parse_header comment v = elim (header comment) [
    | none ↦ v
    | some name ↦ record {
      state = header_parsed;
      queries = v.queries ++ record { name = name; text = [] } ∷ [];
    }
  ]

  -- `parse_text`
  unfoldable pub parse_text : Bytes → LineVisitor → Result Failure LineVisitor
  parse_text value v = elim (text value) [
    | none ↦ err (text_not_parsed v.queries)
    | some parts ↦ ok (record v { queries = insert_back parts v.queries })
  ]

  -- `operator ()`
  unfoldable pub visit : Line → LineVisitor → Result Failure LineVisitor
  visit (query_line_comment comment) v = ok (parse_header comment v)
  visit (query_line_text value) v = elim v.state [
    | initial ↦ err expected_comment
    | header_parsed ↦ parse_text value v
  ]

  unfoldable pub visit_lines : List Line → LineVisitor → Result Failure LineVisitor
  visit_lines [] v = ok v
  visit_lines (line ∷ lines) v = visit line v >>= visit_lines lines

  unfoldable pub parse_query_conf_elements : List Line → Result Failure (List ParsedQuery)
  parse_query_conf_elements lines =
      visit_lines lines (record { state = initial; queries = [] }) >>= λ v. ok v.queries

-- A query type: its name, and its parameters' members, by name, or their number in a tuple.
pub data Parameters : Type 0 where
  members : List Bytes → Parameters
  positions : ℕ → Parameters

pub record Declaration : Type 0 where
  pub name : Bytes
  pub parameters : Parameters

pub record QueryDescription : Type 0 where
  pub name : Bytes
  pub text : Bytes

-- The loop over the keys: the number so far, and whether the key has been found.
unfoldable pub find_key : Bytes → List Bytes → ℕ × Bool → ℕ × Bool
find_key value [] r = r
find_key value (key ∷ keys) r =
    find_key value keys
      (if bytes_eq key value then (r.0, true) else (if not r.1 then (r.0 + 1, r.1) else r))

module _ (lexical_convert : Bytes → Option ℕ) (trim : Bytes → Bytes) where
  -- The number of a parameter, from 0.
  unfoldable pub parameter_number : Parameters → Bytes → Result Failure ℕ
  parameter_number (members keys) value =
      let found = find_key value keys (0, false) in
      if found.1 then ok found.0 else err (parameter_not_found value)
  parameter_number (positions size) value = elim (lexical_convert value) [
    | none ↦ err (not_numeric value)
    | some number ↦ if leb size number then err (out_of_range value) else ok number
  ]

  -- `query_part_visitor`: the text with the part behind it.
  unfoldable pub visit_part : Parameters → Bytes → TextElement → Result Failure Bytes
  visit_part parameters text (query_text_part value) = ok (text ++ value)
  visit_part parameters text (query_parameter_name value) = do
    number ← parameter_number parameters value
    ok (text ++ (codes "$" ++ to_string (number + 1)))

  unfoldable pub visit_parts : Parameters → Bytes → List TextElement → Result Failure Bytes
  visit_parts parameters text [] = ok text
  visit_parts parameters text (part ∷ parts) =
      visit_part parameters text part >>= λ text'. visit_parts parameters text' parts

  -- `make_query_description` of one query type
  unfoldable pub describe : Declaration → ParsedQuery → Result Failure QueryDescription
  describe query parsed = do
    text ← visit_parts query.parameters [] parsed.text
    ok (record { name = parsed.name; text = trim text })

  -- `make_query_description` of all: the last declaration of the name is taken.
  unfoldable pub describe_declared :
      List Declaration → ParsedQuery → Option QueryDescription → Result Failure QueryDescription
  describe_declared [] parsed none = err (not_declared parsed.name)
  describe_declared [] parsed (some description) = ok description
  describe_declared (query ∷ queries) parsed description =
      if bytes_eq query.name parsed.name
      then (describe query parsed >>= λ d. describe_declared queries parsed (some d))
      else describe_declared queries parsed description

  unfoldable pub make_query_descriptions :
      List Declaration → List ParsedQuery → Result Failure (List QueryDescription)
  make_query_descriptions queries [] = ok []
  make_query_descriptions queries (parsed ∷ rest) = do
    description ← describe_declared queries parsed none
    descriptions ← make_query_descriptions queries rest
    ok (description ∷ descriptions)

-- Membership in a set of names, and the two checks for duplicates and the one for undefined queries.
unfoldable pub count : Bytes → List Bytes → Bool
count name [] = false
count name (n ∷ names) = if bytes_eq n name then true else count name names

unfoldable pub check_for_duplicates :
    (Bytes → Failure) → List Bytes → List Bytes → Result Failure (List Bytes)
check_for_duplicates failure seen [] = ok seen
check_for_duplicates failure seen (name ∷ names) =
    if count name seen then err (failure name) else check_for_duplicates failure (name ∷ seen) names

unfoldable pub check_for_undefined : List Declaration → List Bytes → Result Failure (Unit {0})
check_for_undefined [] definitions = ok tt
check_for_undefined (query ∷ queries) definitions = do
  throw_if (not (count query.name definitions)) (not_defined query.name)
  check_for_undefined queries definitions

-- `query_conf::queries.at(name)`: of equal names the first one has been inserted.
unfoldable pub get_description : List QueryDescription → Bytes → Option Bytes
get_description [] name = none
get_description (d ∷ ds) name =
    if bytes_eq d.name name then some d.text else get_description ds name

-- `query_repository::make_query`: the text and the parameters, members of a structure or items of a
-- tuple in their order; `none` if `at` throws.
unfoldable pub make_query :
    {V : Type 0} → List QueryDescription → Bytes → List V → Option (Bytes × List V)
make_query descriptions name parameters = elim (get_description descriptions name) [
  | none ↦ none
  | some text ↦ some (text, parameters)
]

-- `make_query_repository`, from the lines that the grammar finds.
module _ (lines : Bytes → Option (List Line)) (header : Bytes → Option Bytes)
    (text : Bytes → Option (List TextElement)) (lexical_convert : Bytes → Option ℕ)
    (trim : Bytes → Bytes) where
  unfoldable pub parse_query_conf : Bytes → Result Failure (List ParsedQuery)
  parse_query_conf range = elim (lines range) [
    | none ↦ err lines_not_parsed
    | some parsed ↦ parse_query_conf_elements header text parsed
  ]

  unfoldable pub make_query_repository :
      List Declaration → Bytes → Result Failure (List QueryDescription)
  make_query_repository queries range = do
    names ← check_for_duplicates duplicate_declaration [] (map (λ q. q.name) queries)
    parsed ← parse_query_conf range
    definitions ← check_for_duplicates duplicate_definition [] (map (λ p. p.name) parsed)
    check_for_undefined queries definitions
    make_query_descriptions lexical_convert trim queries parsed
