-- ===== src/Errors/Codes.antt =====
-- include/ozo/error.h: `error::code` and the messages of its category, and the error codes that the
-- library hands to its callers.
use ozo.Prelude.{
  ℕ, ◌-◌, ◌^◌, Bool, false, not, List, [], ◌∷◌, ◌++◌, Option, none, some, Bytes, ◌==◌, ltb,
  if◌then◌else◌,
}
use ozo.Prelude.Text.{codes, to_string}

pub data Code : Type 0 where
  ok : Code
  pq_connection_start_failed : Code
  pq_socket_failed : Code
  pq_connection_status_bad : Code
  pq_connect_poll_failed : Code
  oid_type_mismatch : Code
  unexpected_eof : Code
  pg_send_query_params_failed : Code
  pg_consume_input_failed : Code
  pg_set_nonblocking_failed : Code
  pg_flush_failed : Code
  bad_result_process : Code
  no_sql_state_found : Code
  result_status_unexpected : Code
  result_status_empty_query : Code
  result_status_bad_response : Code
  oid_request_failed : Code

-- The value of an enumerator is its place in the list.
unfoldable pub code_value : Code → ℕ
code_value Code.ok = 0
code_value Code.pq_connection_start_failed = 1
code_value Code.pq_socket_failed = 2
code_value Code.pq_connection_status_bad = 3
code_value Code.pq_connect_poll_failed = 4
code_value Code.oid_type_mismatch = 5
code_value Code.unexpected_eof = 6
code_value Code.pg_send_query_params_failed = 7
code_value Code.pg_consume_input_failed = 8
code_value Code.pg_set_nonblocking_failed = 9
code_value Code.pg_flush_failed = 10
code_value Code.bad_result_process = 11
code_value Code.no_sql_state_found = 12
code_value Code.result_status_unexpected = 13
code_value Code.result_status_empty_query = 14
code_value Code.result_status_bad_response = 15
code_value Code.oid_request_failed = 16

-- `error_code`: one of `error::category`, one of `sqlstate::category` (its `int` as a bit pattern),
-- or one of a category that is not the library's, with its value.
pub data ErrorCode : Type 0 where
  success : ErrorCode
  error : Code → ErrorCode
  sqlstate : ℕ → ErrorCode
  system : ℕ → ErrorCode

-- `error_code::operator bool`.
unfoldable pub is_error : ErrorCode → Bool
is_error ErrorCode.success = false
is_error (ErrorCode.error c) = not (code_value c == 0)
is_error (ErrorCode.sqlstate n) = not (n == 0)
is_error (ErrorCode.system n) = not (n == 0)

-- `category::message` on an enumerator.
unfoldable pub code_message : Code → Bytes
code_message Code.ok = codes "no error"
code_message Code.pq_connection_start_failed =
    codes "pq_connection_start_failed - PQConnectionStart function failed"
code_message Code.pq_socket_failed =
    codes "pq_socket_failed - PQSocket returned -1 as fd - it seems like there is no connection"
code_message Code.pq_connection_status_bad =
    codes "pq_connection_status_bad - PQstatus returned CONNECTION_BAD"
code_message Code.pq_connect_poll_failed =
    codes "pq_connect_poll_failed - PQconnectPoll function failed"
code_message Code.oid_type_mismatch = codes "no conversion possible from oid to user-supplied type"
code_message Code.unexpected_eof = codes "unexpected EOF while data read"
code_message Code.pg_send_query_params_failed =
    codes "pg_send_query_params_failed - PQsendQueryParams function failed"
code_message Code.pg_consume_input_failed =
    codes "pg_consume_input_failed - PQconsumeInput function failed"
code_message Code.pg_set_nonblocking_failed =
    codes "pg_set_nonblocking_failed - PQsetnonblocking function failed"
code_message Code.pg_flush_failed = codes "pg_flush_failed - PQflush function failed"
code_message Code.bad_result_process =
    codes "bad_result_process - error while processing or converting result from the database"
code_message Code.no_sql_state_found =
    codes "no_sql_state_found - no sql state has been found in database query execution error reply"
code_message Code.result_status_unexpected =
    codes "result_status_unexpected - got unexpected status from query result"
code_message Code.result_status_empty_query =
    codes "result_status_empty_query - the string sent to the server was empty"
code_message Code.result_status_bad_response =
    codes "result_status_bad_response - the server's response was not understood"
code_message Code.oid_request_failed = codes "error during request oids from a database"

-- The enumerators, in the order of the source.
abbrev all_codes : List Code
all_codes =
    Code.ok ∷ Code.pq_connection_start_failed ∷ Code.pq_socket_failed
    ∷ Code.pq_connection_status_bad ∷ Code.pq_connect_poll_failed ∷ Code.oid_type_mismatch
    ∷ Code.unexpected_eof ∷ Code.pg_send_query_params_failed ∷ Code.pg_consume_input_failed
    ∷ Code.pg_set_nonblocking_failed ∷ Code.pg_flush_failed ∷ Code.bad_result_process
    ∷ Code.no_sql_state_found ∷ Code.result_status_unexpected ∷ Code.result_status_empty_query
    ∷ Code.result_status_bad_response ∷ Code.oid_request_failed ∷ []

-- The enumerator of a value.
abbrev find_code : List Code → ℕ → Option Code
find_code [] value = none
find_code (c ∷ cs) value = if code_value c == value then some c else find_code cs value

-- `std::to_string` of an `int`.
abbrev int_to_string : ℕ → Bytes
int_to_string value =
    if ltb value (2 ^ 31) then to_string value else b'-' ∷ to_string (2 ^ 32 - value)

unfoldable pub message : ℕ → Bytes
message value = elim (find_code all_codes value) [
  | none ↦ codes "no message for value: " ++ int_to_string value
  | some c ↦ code_message c
]
