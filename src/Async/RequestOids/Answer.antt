-- ===== src/Async/RequestOids/Answer.antt =====
-- include/ozo/impl/request_oid_map.h: the query for the oids, and the way of its result into the map.
-- `type_name` gives the names of types in the database, which the program's users define.
use ozo.Prelude.{ℕ, ◌≡◌, List, [], ◌∷◌, Bytes, All, length, get_elem?, map, some, ◌==◌, false}
use ozo.Prelude.Text.{codes}
use ozo.Prelude.Result.{ok, err}
use ozo.Errors.Codes.{ErrorCode, Code}
use ozo.Io.Types.{scalar, oid}
use ozo.Io.OidMap.{OidMap, IsOidMap, TypeKey, at_key}
use ozo.Io.Stream as Stream
use ozo.Query.Builder.{Element, query_text, query_param, concat}
use ozo.Rows.{PgResult, IsPgResult}
use ozo.Rows.Receive.{RowType, single, recv_result}
use ozo.Rows.RoundTrip.{CarriesRows, recv_result-sent}
use ozo.Async.RequestOids.{Failure, Connection, oids_received}
use ozo.Async.RequestOids.Lookup.{keys, IsDistinct, oids_received-at_key}

unfoldable pub get_types_names : (TypeKey → Bytes) → OidMap → List Bytes
get_types_names type_name oid_map = map (λ e. type_name e.0) oid_map

-- The text and the names, which are the query's parameter.
unfoldable pub make_oids_query : (TypeKey → Bytes) → OidMap → List (Element (List Bytes))
make_oids_query type_name oid_map =
    concat
      (concat (query_text (codes "SELECT COALESCE(to_regtype(f)::oid, 0) AS oid FROM UNNEST(") ∷ [])
        (query_param (get_types_names type_name oid_map) ∷ []))
      (query_text (codes ") AS f") ∷ [])

-- `oids_result`
abbrev pub oids_result : RowType
oids_result = single (scalar oid)

-- `request_oid_map_op`, from the result of its request on: a result that is not received ends the
-- request with an error, and `operator ()` is called in either case.
unfoldable pub request_oid_map :
    (Stream.Failure → Bytes) → (Failure → Bytes) → PgResult → Connection → ErrorCode × Connection
request_oid_map recv_what what res conn = elim (recv_result res conn.oid_map oids_result []) [
  | err failure ↦
      oids_received what (ErrorCode.error Code.bad_result_process) []
        (record conn { error_context = recv_what failure })
  | ok received ↦ oids_received what ErrorCode.success received conn
]

-- Where the database answers with one row for each type of the map, whose only value is the
-- type's oid and not null, the handler gets no error and a connection on which the type at each
-- place of the map has the oid of the row at that place.
pub request_oid_map-at_key :
    (recv_what : Stream.Failure → Bytes) (what : Failure → Bytes) (res : PgResult)
    (conn : Connection) (oids : List ℕ) (i : ℕ) (k : TypeKey) (value : ℕ)
    → IsPgResult res
    → IsOidMap conn.oid_map
    → IsDistinct (keys conn.oid_map)
    → res.pq_ntuples ≡ length oids
    → CarriesRows res conn.oid_map oids_result 0 oids
    → length conn.oid_map ≡ length oids
    → All (λ value. (value == 0) ≡ false) oids
    → get_elem? (keys conn.oid_map) i ≡ some k
    → get_elem? oids i ≡ some value
    → let outcome = request_oid_map recv_what what res conn in
      (outcome.0 ≡ ErrorCode.success) × (at_key outcome.1.oid_map k ≡ value)
unfolding request_oid_map
request_oid_map-at_key recv_what what res conn oids i k value p m d n c l h e g =
    rw (request_oid_map, recv_result-sent res conn.oid_map oids_result oids [] m p n c)
      (oids_received-at_key what oids conn i k value d l h e g)
