-- ===== src/Connections/Execute.antt =====
-- include/ozo/impl/async_execute.h, with `async_request_op` of impl/async_request.h and the
-- handlers of detail/post_handler.h and detail/cancel_timer_handler.h around the request's
-- handler: from a provider's answer to the handler. The turns of the request are those of
-- Async.Request; seen from here, a request reads the handle and the error context of its connection
-- and leaves others, with an error code.
use mathlib.Core.Option
use ozo.Prelude.{ℕ, ◌≡◌, refl, Option, some, true, false, if◌then◌else◌, Bytes}
use ozo.Errors.Codes.{ErrorCode, is_error}
use ozo.Connections.{
  ConnectionImpl, Object, transaction, unwrap_connection, get_io_context, get_socket, modify,
}
use ozo.Connections.Rebind.{modify-Modified}

-- A handler that is posted: the address of the context, the error code and the object.
pub record Posted (N : Type 0) : Type 0 where
  pub context : ℕ
  pub code : ErrorCode
  pub object : Object N

-- How a request ends: its code, and the handle and the error context that it leaves.
pub record Ran (N : Type 0) : Type 0 where
  pub code : ErrorCode
  pub handle : Option N
  pub error_context : Bytes

-- A request, as a function of the handle and the error context of its connection.
abbrev pub Query : Type 0 → Type 0
Query N = Option N → Bytes → Ran N

module _ {N : Type 0} where
  -- `detail::post_handler` and the `asio::post` of the operations: the context is the connection's.
  unfoldable pub post_handler : ErrorCode → Object N → Option (Posted N)
  post_handler ec o =
      Option.map (λ io. record { context = io; code = ec; object = o }) (get_io_context o)

  -- `expires_after` and `async_wait` of the connection's timer, and `cancel_timer_handler`.
  unfoldable pub start_timer : Object N → Option (Object N)
  start_timer o = modify (λ c. record c { timer = record (c.timer) { waiting = true } }) o

  unfoldable pub cancel_timer : Object N → Option (Object N)
  cancel_timer o = modify (λ c. record c { timer = record (c.timer) { waiting = false } }) o

  -- The handler that the context of a request holds.
  unfoldable pub request_done : ErrorCode → Object N → Option (Posted N)
  request_done ec o = Option.bind (cancel_timer o) (post_handler ec)

  -- The request on the connection `c`, and the connection that it leaves.
  unfoldable pub ran_by : Query N → ConnectionImpl N → Ran N
  ran_by query c = query c.handle c.error_context

  unfoldable pub requested : Query N → ConnectionImpl N → ConnectionImpl N
  requested query c =
      let ran = ran_by query c in
      record c { handle = ran.handle; error_context = ran.error_context }

  -- The request on the connection behind an object: its code, and the object.
  unfoldable pub request : Query N → Object N → Option (ErrorCode × Object N)
  request query o =
      Option.bind (unwrap_connection o)
        (λ c. Option.map (λ p. ((ran_by query c).code, p)) (modify (requested query) o))

  -- `async_execute` on what a provider answers: what the handler is called with. The answer's own
  -- error skips the request.
  unfoldable pub executed : Query N → ErrorCode × Object N → Option (ErrorCode × Object N)
  executed query answer =
      if is_error answer.0
      then some answer
      else Option.map (λ p. (p.code, p.object))
          (Option.bind (Option.bind (start_timer answer.1) (request query))
            (λ ended. request_done ended.0 ended.1))

  -- The connection with its timer stopped.
  abbrev pub stopped : ConnectionImpl N → ConnectionImpl N
  stopped c = record c { timer = record (c.timer) { waiting = false } }

  -- The connection as the request leaves it, with its timer stopped.
  abbrev pub left_by : Query N → ConnectionImpl N → ConnectionImpl N
  left_by query c = stopped (requested query c)

  -- The handler gets the code of the request and an object that leads to the connection.
  abbrev pub RunsTo : Query N → Object N → ConnectionImpl N → (Object N → Object N) → Type 0
  RunsTo query o c wrap =
      (p : Object N) × (executed query (ErrorCode.success, wrap o)
        ≡ some ((ran_by query c).code, wrap p))
      × (unwrap_connection p ≡ some (left_by query c))

  -- The object with its timer started, the one that the request leaves, and the one with its timer
  -- stopped again.
  timed :
      (query : Query N) (o : Object N) (c : ConnectionImpl N)
      → unwrap_connection o ≡ some c
      → (p r q : Object N) × (start_timer o ≡ some p)
        × (modify (requested query) p ≡ some r)
        × (cancel_timer r ≡ some q)
        × (unwrap_connection p ≡ some (record c { timer = record (c.timer) { waiting = true } }))
        × (unwrap_connection q ≡ some (left_by query c))
  unfolding start_timer cancel_timer requested ran_by
  timed query o c e =
      let running = record c { timer = record (c.timer) { waiting = true } } in
      let started =
        modify-Modified (λ d. record d { timer = record (d.timer) { waiting = true } }) o c e in
      let ran = modify-Modified (requested query) started.0 running started.2 in
      let done = modify-Modified stopped ran.0 (requested query running) ran.2 in
      (started.0, ran.0, done.0, started.1, ran.1, done.1, started.2, done.2)

  pub executed-RunsTo :
      (query : Query N) (o : Object N) (c : ConnectionImpl N)
      → unwrap_connection o ≡ some c
      → RunsTo query o c (λ p. p)
  unfolding executed request request_done post_handler get_io_context get_socket is_error
      Option.bind ran_by requested
  executed-RunsTo query o c e =
      let done = timed query o c e in
      (done.2, rw done.3 (rw done.6 (rw done.4 (rw done.5 (rw done.7 refl)))), done.7)

  pub executed-transaction :
      (query : Query N) (o : Object N) (c : ConnectionImpl N)
      → unwrap_connection o ≡ some c
      → RunsTo query o c transaction
  unfolding executed request start_timer cancel_timer request_done post_handler get_io_context
      get_socket is_error Option.bind modify unwrap_connection ran_by requested
  executed-transaction query o c e =
      let done = timed query o c e in
      (done.2, rw done.3 (rw done.6 (rw done.4 (rw done.5 (rw done.7 refl)))), done.7)
