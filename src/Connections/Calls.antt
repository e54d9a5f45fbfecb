-- ===== src/Connections/Calls.antt =====
-- include/ozo/impl/io.h on connection objects: each function finds the connection behind the wrappers
-- and calls libpq on its native handle, which may be null. `none` is undefined behaviour.
use mathlib.Core.Option
use ozo.Prelude.{Bool, not, Option, if◌then◌else◌}
use ozo.Errors.Codes.{ErrorCode, Code}
use ozo.Async.Native.{Native, QueryState}
use ozo.Connections.{Object, modify, get_native_handle}

module _ {N R : Type 0} (pq : Native (Option N) R) where
  -- `f(get_native_handle(unwrap_connection(conn)))`, with the object that it leaves.
  unfoldable pub on_handle :
      {A : Type 0} → (Option N → A × Option N) → Object N → Option (A × Object N)
  on_handle f o =
      Option.bind (get_native_handle o)
        (λ h. Option.map (λ p. ((f h).0, p)) (modify (λ c. record c { handle = (f h).1 }) o))

  -- `set_nonblocking`: PQsetnonblocking gives a number that is not 0 on failure.
  unfoldable pub set_nonblocking : Object N → Option (ErrorCode × Object N)
  set_nonblocking o =
      Option.map
        (λ r.
          (if r.0 then ErrorCode.error Code.pg_set_nonblocking_failed else ErrorCode.success, r.1))
        (on_handle pq.pq_set_nonblocking o)

  -- `consume_input`: PQconsumeInput gives 0 on failure.
  unfoldable pub consume_input : Object N → Option (ErrorCode × Object N)
  consume_input o =
      Option.map
        (λ r. (
          if not r.0 then ErrorCode.error Code.pg_consume_input_failed else ErrorCode.success,
          r.1,
        ))
        (on_handle pq.pq_consume_input o)

  unfoldable pub send_query_params : Object N → Option (Bool × Object N)
  send_query_params o = on_handle pq.pq_send_query_params o

  unfoldable pub is_busy : Object N → Option (Bool × Object N)
  is_busy o = on_handle pq.pq_is_busy o

  unfoldable pub flush_output : Object N → Option (QueryState × Object N)
  flush_output o = on_handle pq.pq_flush_output o

  unfoldable pub get_result : Object N → Option (Option R × Object N)
  get_result o = on_handle pq.pq_get_result o
