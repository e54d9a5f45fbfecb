-- ===== src/Query/Conf/Blocks.antt =====
-- The queries of a file that consists of blocks: a header, and the lines up to the next one.
use ozo.Prelude.{
  ◌≡◌, refl, sym, ap, ◌∙◌, List, [], ◌∷◌, ◌++◌, append-nil, append_assoc, Option, none, some, Bytes,
  All, map,
}
use ozo.Prelude.Result.{ok, err, ◌>>=◌}
use ozo.Query.Conf.{
  Line, query_line_comment, query_line_text, TextElement, ParsedQuery, Failure, LineVisitor,
  initial, header_parsed, insert_back, parse_header, parse_text, visit, visit_lines,
  parse_query_conf_elements,
}

-- A line of a block behind the header: a comment that is no header, or text with its elements.
pub data Item : Type 0 where
  note : Bytes → Item
  content : Bytes → List TextElement → Item

pub record Block : Type 0 where
  pub header : Bytes
  pub name : Bytes
  pub items : List Item

abbrev pub item_line : Item → Line
item_line (note comment) = query_line_comment comment
item_line (content value parts) = query_line_text value

abbrev pub item_parts : List Item → List TextElement
item_parts [] = []
item_parts (note comment ∷ items) = item_parts items
item_parts (content value parts ∷ items) = parts ++ item_parts items

abbrev pub block_lines : List Block → List Line
block_lines [] = []
block_lines (b ∷ bs) = query_line_comment b.header ∷ (map item_line b.items ++ block_lines bs)

-- What a block means: its name, and the elements of its texts in order.
abbrev pub block_query : Block → ParsedQuery
block_query b = record { name = b.name; text = item_parts b.items }

module _ (header : Bytes → Option Bytes) (text : Bytes → Option (List TextElement)) where
  abbrev pub IsItem : Item → Type 0
  IsItem (note comment) = header comment ≡ none
  IsItem (content value parts) = text value ≡ some parts

  abbrev pub IsBlock : Block → Type 0
  IsBlock b = (header b.header ≡ some b.name) × All IsItem b.items

  abbrev inside : List ParsedQuery → LineVisitor
  inside queries = record { state = header_parsed; queries = queries }

  insert_back-append :
      (parts : List TextElement) (qs : List ParsedQuery) (q : ParsedQuery)
      → insert_back parts (qs ++ q ∷ []) ≡ qs ++ record q { text = q.text ++ parts } ∷ []
  unfolding insert_back
  insert_back-append parts [] q = refl
  insert_back-append parts (x ∷ []) q = refl
  insert_back-append parts (x ∷ y ∷ qs) q = ap (λ l. x ∷ l) (insert_back-append parts (y ∷ qs) q)

  visit_lines-items :
      (items : List Item) (more : List Line) (qs : List ParsedQuery) (q : ParsedQuery)
      → All IsItem items
      → visit_lines header text (map item_line items ++ more) (inside (qs ++ q ∷ []))
        ≡ visit_lines header text more
            (inside (qs ++ record q { text = q.text ++ item_parts items } ∷ []))
  unfolding visit_lines visit parse_header parse_text
  visit_lines-items [] more qs q h = rw (append-nil q.text) refl
  visit_lines-items (note comment ∷ items) more qs q h =
      rw (parse_header, h.0) (visit_lines-items items more qs q h.1)
  visit_lines-items (content value parts ∷ items) more qs q h =
      rw (parse_text, h.0)
        (rw (insert_back-append parts qs q) (
          visit_lines-items items more qs (record q { text = q.text ++ parts }) h.1
          ∙ rw (append_assoc q.text parts (item_parts items)) refl))

  visit_lines-blocks :
      (blocks : List Block) (v : LineVisitor)
      → All IsBlock blocks
      → (visit_lines header text (block_lines blocks) v >>= λ v'. ok v'.queries)
        ≡ ok (v.queries ++ map block_query blocks)
  unfolding visit_lines visit parse_header
  visit_lines-blocks [] v h = ap ok (sym (append-nil v.queries))
  visit_lines-blocks (b ∷ blocks) v h =
      rw (parse_header, h.0.0)
        (rw
          (visit_lines-items b.items (block_lines blocks) v.queries
            (record { name = b.name; text = [] }) h.0.1)
          (visit_lines-blocks blocks (inside (v.queries ++ block_query b ∷ [])) h.1
            ∙ ap ok (append_assoc v.queries (block_query b ∷ []) (map block_query blocks))))

  visit_lines-notes :
      (notes : List Bytes) (more : List Line) (v : LineVisitor)
      → All (λ comment. header comment ≡ none) notes
      → visit_lines header text (map query_line_comment notes ++ more) v
        ≡ visit_lines header text more v
  unfolding visit_lines visit parse_header
  visit_lines-notes [] more v h = refl
  visit_lines-notes (comment ∷ notes) more v h =
      rw (parse_header, h.0) (visit_lines-notes notes more v h.1)

  -- A file of comments that are no headers, and then of blocks whose texts all parse, gives one query
  -- for each block in their order, with the name of its header and the elements of all its texts.
  pub parse_query_conf_elements-blocks :
      (notes : List Bytes) (blocks : List Block)
      → All (λ comment. header comment ≡ none) notes
      → All IsBlock blocks
      → parse_query_conf_elements header text (map query_line_comment notes ++ block_lines blocks)
        ≡ ok (map block_query blocks)
  unfolding parse_query_conf_elements
  parse_query_conf_elements-blocks notes blocks g h =
      let start : LineVisitor = record { state = initial; queries = [] } in
      rw (visit_lines-notes notes (block_lines blocks) start g) (visit_lines-blocks blocks start h)

  -- A text that stands before the first header is an error.
  parse_query_conf_elements_early :
      (notes : List Bytes) (value : Bytes) (more : List Line)
      → All (λ comment. header comment ≡ none) notes
      → parse_query_conf_elements header text
          (map query_line_comment notes ++ query_line_text value ∷ more)
        ≡ err Failure.expected_comment
  unfolding parse_query_conf_elements visit_lines visit
  parse_query_conf_elements_early notes value more g =
      let start : LineVisitor = record { state = initial; queries = [] } in
      rw (visit_lines-notes notes (query_line_text value ∷ more) start g) refl
