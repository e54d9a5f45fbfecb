-- ===== src/Query/Send/Tests.antt =====
-- A query with a number and a word.
use ozo.Prelude.{
  ℕ, Option, none, refl, ◌+◌, ◌<◌, ◌^◌, ◌≡◌, arith, List, [], ◌∷◌, ◌++◌, some, Bytes, All, length,
  length-append,
}
use ozo.Prelude.Text as Text
use ozo.Prelude.Text.{codes, bytes_eq}
use ozo.Prelude.Result.{ok, err}
use ozo.Io.Types.{scalar, int4, bytea, init, scalar_oid}
use ozo.Io.OidMap.{type_oid}
use ozo.Io.Send.{send, send_scalar}
use ozo.Io.Stream.{write_integral}
use ozo.Io.Stream.RoundTrip.{length-write_integral}
use ozo.Io.Recv.{recv}
use ozo.Io.BinaryQuery.{Param}
use ozo.Io.BinaryQuery.Layout.{IsPlain, sent, all_sent}
use ozo.Query.Builder.{
  Element, query_text, query_param, concat, build, params, to_string, text, fold_params, add_param,
  fold_text, add_text, to_string_rounds, digit_to_string,
}
use ozo.Query.Send.{bound, send_query}
use ozo.Query.Conf.{
  QueryDescription, query_parameter_name, Failure, members, visit_part, get_description, make_query,
}
use ozo.Query.Send.Named.{make_query-members}
use ozo.Query.Send.Placeholder.{query_of, send_query-placeholder}

abbrev number : Param
number = record { ty = scalar int4; value = 258 }

abbrev word : Param
word = record { ty = scalar bytea; value = codes "hi" }

abbrev lexical_convert : Bytes → Option ℕ
lexical_convert text = none

abbrev trim : Bytes → Bytes
trim text = text

abbrev before : List (Element Param)
before = query_text (codes "SELECT ") ∷ query_param number ∷ query_text (codes ", ") ∷ []

plain : All (IsPlain []) ((query_of before [] word).1)
unfolding build concat params fold_params add_param send send_scalar
plain =
    ((omega arith, omega (arith, length-write_integral 4 258)), ((omega arith, omega arith), tt))

small : length (all_sent [] ((query_of before [] word).1)) < 2 ^ 64
unfolding build concat params fold_params add_param send send_scalar
small =
    omega (arith, length-append (write_integral 4 258) (codes "hi"), length-write_integral 4 258)

positive : 0 < length (sent [] word)
unfolding send send_scalar
positive = omega arith

send_query-placeholder_example :
    ((tail : Bytes) × ((send_query [] (query_of before [] word)).command
        ≡ (codes "SELECT $1, " ++ codes "$2") ++ tail))
    × ((bytes : Bytes) × (bound (send_query [] (query_of before [] word)) 1
          ≡ some (record { bound_oid = 17; bound_format = 1; bound_bytes = some bytes }))
        × (recv [] (scalar bytea) (some 17) (length bytes) (init (scalar bytea)) bytes
            ≡ ok (codes "hi", [])))
unfolding params fold_params add_param type_oid scalar_oid fold_text add_text to_string
    to_string_rounds digit_to_string text
send_query-placeholder_example =
    send_query-placeholder [] before [] word tt (omega arith) positive plain small

abbrev descriptions : List QueryDescription
descriptions = record { name = codes "q"; text = codes "SELECT $2, $1" } ∷ []

make_query-members_example :
    (visit_part lexical_convert trim
        (members (codes "x" ∷ codes "id" ∷ []))
        (codes "SELECT ")
        (query_parameter_name (codes "id"))
      ≡ ok (codes "SELECT " ++ (codes "$" ++ Text.to_string (length (codes "x" ∷ []) + 1))))
    × (visit_part lexical_convert trim
          (members (codes "x" ∷ []))
          (codes "SELECT ")
          (query_parameter_name (codes "id"))
        ≡ err (Failure.parameter_not_found (codes "id")))
    × ((query : Bytes × List Param) × (make_query descriptions (codes "q") (number ∷ word ∷ [])
          ≡ some query)
        × (query.0 ≡ codes "SELECT $2, $1")
        × (bound (send_query [] query) 1
            ≡ some
                (record { bound_oid = 17; bound_format = 1; bound_bytes = some (sent [] word) })))
unfolding get_description bytes_eq type_oid scalar_oid build concat params fold_params add_param
make_query-members_example =
    make_query-members lexical_convert trim (codes "SELECT ") (codes "id") (codes "x" ∷ []) []
      descriptions (codes "q") (codes "SELECT $2, $1") [] (number ∷ word ∷ []) word (refl, tt) refl
      plain small positive refl
