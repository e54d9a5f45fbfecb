-- ===== src/Query/Send/Named.antt =====
-- The way of a named parameter of a query file to the server.
use ozo.Prelude.{
  ℕ, ◌+◌, ◌^◌, ◌<◌, ◌≡◌, refl, List, ◌∷◌, ◌++◌, Option, some, Bytes, All, length, get_elem?,
}
use ozo.Prelude.Text.{codes, to_string}
use ozo.Prelude.Result.{ok, err}
use ozo.Io.OidMap.{OidMap, type_oid}
use ozo.Io.BinaryQuery.{Param}
use ozo.Io.BinaryQuery.Layout.{IsPlain, sent, all_sent}
use ozo.Query.Conf.{
  QueryDescription, query_parameter_name, Failure, members, visit_part, get_description, make_query,
}
use ozo.Query.Conf.Keys.{Lacks, visit_part-members}
use ozo.Query.Send.{bound, send_query}
use ozo.Query.Send.Placeholder.{bound-sent}

module _ (lexical_convert : Bytes → Option ℕ) (trim : Bytes → Bytes) where
  -- A parameter named after the first member of that name becomes a dollar sign and the place of
  -- the member, counted from 1; `make_query` of a query of the repository, with parameters that
  -- have no null in them, of less than 2 ^ 31 bytes each and 2 ^ 64 together, has the text of the
  -- query; and for that place libpq sends the oid of the member, if it writes at least one byte,
  -- the binary format and the bytes that `send` writes for it. A parameter whose name is no
  -- member is an error.
  pub make_query-members :
      (head value : Bytes) (before after : List Bytes) (descriptions : List QueryDescription)
      (name text : Bytes) (oids : OidMap) (parameters : List Param) (p : Param)
      → Lacks value before
      → get_description descriptions name ≡ some text
      → All (IsPlain oids) parameters
      → length (all_sent oids parameters) < 2 ^ 64
      → 0 < length (sent oids p)
      → get_elem? parameters (length before) ≡ some p
      → (visit_part lexical_convert trim
            (members (before ++ value ∷ after))
            head
            (query_parameter_name value)
          ≡ ok (head ++ (codes "$" ++ to_string (length before + 1))))
        × (visit_part lexical_convert trim (members before) head (query_parameter_name value)
            ≡ err (Failure.parameter_not_found value))
        × ((query : Bytes × List Param) × (make_query descriptions name parameters ≡ some query)
            × (query.0 ≡ text)
            × (bound (send_query oids query) (length before)
                ≡ some (record {
                  bound_oid = type_oid oids p.ty;
                  bound_format = 1;
                  bound_bytes = some (sent oids p);
                })))
  unfolding make_query
  make_query-members head value before after descriptions name text oids parameters p lacks found
        plain small positive there =
      let numbered = visit_part-members lexical_convert trim head value before after lacks in
      (
        numbered.0,
        numbered.1,
        (
          (text, parameters),
          rw (make_query, found) refl,
          refl,
          bound-sent oids text parameters (length before) p plain small positive there,
        ),
      )
