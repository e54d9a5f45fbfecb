-- ===== src/Async/RequestOids/Tests.antt =====
-- Two custom types, and the answers of a database.
use ozo.Prelude.{
  ℕ, zero, suc, arith, none, some, ◌==◌, if◌then◌else◌, false, true, List, Option, ◌∷◌, ◌≡◌, refl,
  [], Bytes,
}
use ozo.Prelude.Text.{codes, bytes_eq}
use ozo.Io.Stream as Stream
use ozo.Io.Stream.{write_integral}
use ozo.Io.Endian.{raw, convert_to_big_endian, byte_order_swap}
use ozo.Io.Types.{scalar_oid}
use ozo.Io.SizeOf.{size_of, size_of_scalar}
use ozo.Io.Send.{send, send_scalar}
use ozo.Rows.{PgResult, IsPgResult, value_oid, value_data, value_size, is_null, to_size}
use ozo.Prelude.Result.{ok}
use ozo.Rows.Receive.{incoming_size, recv_result}
use ozo.Rows.RoundTrip.{CarriesRows, recv_result-sent}
use ozo.Query.Builder.{
  build, concat, text, params, fold_text, fold_params, add_text, add_param, to_string,
  to_string_rounds, digit_to_string,
}
use ozo.Async.Native.{Native, QueryState, tuples_ok, is_failed}
use ozo.Async.Request.{
  Request, finished, posted, behind_read_poll, get_result_step, reenter, while_busy, take_result,
  handle_result, consumed, process_and_done, done,
}
use ozo.Async.Request.OutHandler.{out_handler}
use ozo.Async.Request.OutHandler.Received.{Succeeds}
use ozo.Async.Request.OutHandler.Success.{HasResult, with_input, get_result_step-HasResult}
use ozo.Async.RequestOids.Answer.{
  oids_result, request_oid_map, request_oid_map-at_key, make_oids_query, get_types_names,
}
use ozo.Errors.Codes.{ErrorCode, is_error}
use ozo.Io.OidMap.{single, vector_of, at_key, key_eq, IsOidMap, type_oid}
use ozo.Async.RequestOids.{Failure, Connection}
use ozo.Async.RequestOids.Lookup.{IsDistinct, keys}

abbrev conn : Connection
conn = record { oid_map = (single 0, 0) ∷ (vector_of 0, 0) ∷ []; error_context = [] }

abbrev what : Failure → Bytes
what f = []

abbrev recv_what : Stream.Failure → Bytes
recv_what f = []

keys-IsDistinct : IsDistinct (keys conn.oid_map)
unfolding key_eq
keys-IsDistinct = ((refl, tt), (tt, tt))

-- The database's answer: one column, and the oids 16384 and 16390.
abbrev answer : PgResult
answer = record {
  pq_ftype = λ j. 26;
  pq_fformat = λ j. 1;
  pq_getvalue = λ i j. 0 ∷ 0 ∷ 64 ∷ (if i == 0 then 0 else 6) ∷ [];
  pq_getlength = λ i j. 4;
  pq_getisnull = λ i j. false;
  pq_fnumber = λ name. if bytes_eq name (codes "oid") then some 0 else none;
  pq_nfields = 1;
  pq_ntuples = 2;
}

answer-IsPgResult : IsPgResult answer
answer-IsPgResult = (omega arith, omega arith, λ i j. omega arith, λ name i e. ground (arith, e))

conn-IsOidMap : IsOidMap conn.oid_map
conn-IsOidMap = (omega arith, (omega arith, tt))

answer_carried : CarriesRows answer conn.oid_map oids_result 0 (16384 ∷ 16390 ∷ [])
unfolding size_of size_of_scalar incoming_size is_null value_size to_size value_oid value_data send
    send_scalar type_oid scalar_oid write_integral raw convert_to_big_endian byte_order_swap
answer_carried =
    ((refl, (omega arith, refl, refl, refl)), ((refl, (omega arith, refl, refl, refl)), tt))

request_oid_map-at_key_example :
    let outcome = request_oid_map recv_what what answer conn in
    (outcome.0 ≡ ErrorCode.success) × (at_key outcome.1.oid_map (vector_of 0) ≡ 16390)
request_oid_map-at_key_example =
    request_oid_map-at_key recv_what what answer conn (16384 ∷ 16390 ∷ []) 1 (vector_of 0) 16390
      answer-IsPgResult conn-IsOidMap keys-IsDistinct refl answer_carried refl (refl, (refl, tt))
      refl refl

-- A native connection that has this answer to a query that has been sent.
abbrev native : Native ℕ PgResult
native = record {
  pq_set_nonblocking = λ n. (false, n);
  pq_send_query_params = λ n. (true, n);
  pq_flush_output = λ n. (QueryState.send_finish, n);
  pq_is_busy = λ n. (false, n);
  pq_consume_input = λ n. (true, n);
  pq_get_result = λ n. elim n [ zero ↦ (none, zero) | suc m ↦ (some answer, m) ];
  pq_result_status = λ r. tuples_ok;
  pq_result_error_field = λ r. none;
  results_left = λ n. n;
}

abbrev asked : Request ℕ
asked = record {
  native = 1;
  error_context = [];
  state = QueryState.send_finish;
  send_op = finished;
  get_result_op = posted;
  resume = behind_read_poll;
  posted_codes = [];
}

answer_received : recv_result answer conn.oid_map oids_result [] ≡ ok (16384 ∷ 16390 ∷ [])
answer_received =
    recv_result-sent answer conn.oid_map oids_result (16384 ∷ 16390 ∷ []) [] conn-IsOidMap
      answer-IsPgResult refl answer_carried

when_received :
    (res : PgResult) (rows : List ℕ)
    → recv_result res conn.oid_map oids_result [] ≡ ok rows
    → out_handler recv_what conn.oid_map oids_result [] res ≡ none
unfolding out_handler
when_received res rows e = rw (out_handler, e) refl

when_processed :
    (process : PgResult → Option Bytes)
    → process answer ≡ none
    → Succeeds asked (get_result_step native process ErrorCode.success asked)
unfolding get_result_step is_failed is_error reenter while_busy take_result handle_result consumed
    process_and_done done
when_processed process e = rw (process_and_done, e) refl

get_result_step-HasResult_example :
    (is_error ErrorCode.success ≡ false)
    × HasResult native recv_what conn.oid_map oids_result [] (with_input native asked.resume 1)
get_result_step-HasResult_example =
    get_result_step-HasResult native recv_what conn.oid_map oids_result [] ErrorCode.success asked (
      when_processed (out_handler recv_what conn.oid_map oids_result [])
        (when_received answer (16384 ∷ 16390 ∷ []) answer_received))

-- The text of the query for the oids, with the names as its one parameter.
oids_query_text : build (make_oids_query (λ k. codes "name") conn.oid_map) ≡ (
  codes "SELECT COALESCE(to_regtype(f)::oid, 0) AS oid FROM UNNEST($1) AS f",
  (codes "name" ∷ codes "name" ∷ []) ∷ [],
)
unfolding build make_oids_query get_types_names concat text params fold_text fold_params add_text
    add_param to_string to_string_rounds digit_to_string
oids_query_text = refl
