-- ===== src/Async/Native.antt =====
-- include/ozo/impl/io.h and impl/result_status.h: libpq as the operations see it. A native connection
-- and a result are types of libpq, and each call gives its value and the connection that it leaves.
use ozo.Prelude.{ℕ, ◌<◌, ◌≡◌, Bool, true, false, ◌==◌, Option, some, Bytes}
use ozo.Prelude.Text.{codes}
use ozo.Errors.Codes.{ErrorCode}

-- `query_state`, and what PQflush returns.
pub data QueryState : Type 0 where
  error send_finish send_in_progress : QueryState

-- `state == query_state::error` and `state == query_state::send_in_progress`
unfoldable pub is_failed : QueryState → Bool
is_failed QueryState.error = true
is_failed _ = false

unfoldable pub is_sending : QueryState → Bool
is_sending QueryState.send_in_progress = true
is_sending _ = false

-- `ExecStatusType`, by the names that the code reads; `unknown` is any other value.
pub data ResultStatus : Type 0 where
  single_tuple tuples_ok command_ok copy_out copy_in copy_both : ResultStatus
  nonfatal_error bad_response empty_query fatal_error unknown : ResultStatus

unfoldable pub get_result_status_name : ResultStatus → Bytes
get_result_status_name single_tuple = codes "PGRES_SINGLE_TUPLE"
get_result_status_name tuples_ok = codes "PGRES_TUPLES_OK"
get_result_status_name command_ok = codes "PGRES_COMMAND_OK"
get_result_status_name copy_out = codes "PGRES_COPY_OUT"
get_result_status_name copy_in = codes "PGRES_COPY_IN"
get_result_status_name copy_both = codes "PGRES_COPY_BOTH"
get_result_status_name nonfatal_error = codes "PGRES_NONFATAL_ERROR"
get_result_status_name bad_response = codes "PGRES_BAD_RESPONSE"
get_result_status_name empty_query = codes "PGRES_EMPTY_QUERY"
get_result_status_name fatal_error = codes "PGRES_FATAL_ERROR"
get_result_status_name unknown = codes "unknown"

-- The calls of libpq on an established connection. The `Bool` of `set_nonblocking` is true on
-- failure, as PQsetnonblocking returns it; those of `send_query_params` and `consume_input` are
-- true on success.
pub record Native (N R : Type 0) : Type 0 where
  pub pq_set_nonblocking : N → Bool × N
  pub pq_send_query_params : N → Bool × N
  pub pq_flush_output : N → QueryState × N
  pub pq_is_busy : N → Bool × N
  pub pq_consume_input : N → Bool × N
  pub pq_get_result : N → Option R × N
  pub pq_result_status : R → ResultStatus
  pub pq_result_error_field : R → Option Bytes
  -- how many results PQgetResult still hands out
  pub results_left : N → ℕ

-- PQgetResult is called until it returns null, and each result is one less to come.
abbrev pub IsDraining : {N R : Type 0} → Native N R → Type 0
IsDraining {N} {R} pq =
    (n : N) (r : R)
    → (pq.pq_get_result n).0 ≡ some r
    → pq.results_left ((pq.pq_get_result n).1) < pq.results_left n

-- asio's codes, in the numbers of Linux: EBADF and ECANCELED.
abbrev pub bad_descriptor : ErrorCode
bad_descriptor = ErrorCode.system 9

abbrev pub operation_aborted : ErrorCode
operation_aborted = ErrorCode.system 125

unfoldable pub is_bad_descriptor : ErrorCode → Bool
is_bad_descriptor (ErrorCode.system n) = n == 9
is_bad_descriptor _ = false
