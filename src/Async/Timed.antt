-- ===== src/Async/Timed.antt =====
-- include/ozo/detail/timeout_handler.h and cancel_timer_handler.h, as `async_request_op` of
-- include/ozo/impl/async_request.h puts them around a request: the timer of the connection limits
-- the time, its callback cancels the socket, and the request's handler cancels the timer.
pub mod Limits
pub mod Aborted
mod Tests
use ozo.Prelude.{
  ℕ, ◌≡◌, suc, Bool, false, List, [], ◌∷◌, ◌++◌, ◌==◌, ◌<◌, Option, if◌then◌else◌, length, Bytes,
}
use mathlib.Core.Option
use ozo.Errors.Codes.{ErrorCode}
use ozo.Async.Native.{Native, QueryState, operation_aborted}
use ozo.Async.Request.{
  Wait, finished, posted, polling, at_start, Request, send_step, get_result_step, async_request,
}
use ozo.Async.Request.Turns.{Step}

-- The timer of the connection: running; expired, with its callback queued; cancelled, with its
-- callback queued; or done with its callback, after it has expired or after it has been cancelled.
pub data Timer : Type 0 where
  running expired cancelled timed_out called_off : Timer

-- A request with its timer, how many of the handlers that it has posted have been called, and how
-- often the callback has cancelled the socket.
pub record Timed (N : Type 0) : Type 0 where
  pub request : Request N
  pub timer : Timer
  pub calls : ℕ
  pub cancels : ℕ

-- `get_timer(connection).cancel()`: a timer that has expired is cancelled no more.
unfoldable pub cancel : Timer → Timer
cancel running = cancelled
cancel timer = timer

unfoldable pub is_operation_aborted : ErrorCode → Bool
is_operation_aborted (ErrorCode.system n) = n == 125
is_operation_aborted _ = false

-- What the callback of a timer is called with.
abbrev pub CalledWith : Timer → ErrorCode → Type 0
CalledWith expired ec = ec ≡ ErrorCode.success
CalledWith cancelled ec = ec ≡ operation_aborted
CalledWith timer ec = ⊥

-- The timer whose callback is called.
unfoldable pub ended : Timer → Timer
ended expired = timed_out
ended cancelled = called_off
ended timer = timer

-- The operations that wait for the socket, which `socket.cancel()` ends with `operation_aborted`.
pub data Turn : Type 0 where
  of_send of_get_result : Turn

abbrev pub polls : Wait → Turn → List Turn
polls polling turn = turn ∷ []
polls wait turn = []

-- The turns of two operations in the other order.
abbrev pub swapped : List Turn → List Turn
swapped (first ∷ second ∷ turns) = second ∷ first ∷ turns
swapped turns = turns

module _ {N : Type 0} where
  -- `cancel_timer_handler::operator ()`, when the executor calls a handler that has been posted.
  unfoldable pub handler_called : Timed N → Timed N
  handler_called t = record t { timer = cancel t.timer; calls = suc t.calls }

  -- `timeout_handler::operator ()`
  unfoldable pub timeout_handler : ErrorCode → Timed N → Timed N
  timeout_handler ec t = if is_operation_aborted ec then t else record t { cancels = suc t.cancels }

  unfoldable pub cancelled_polls : Request N → List Turn
  cancelled_polls s = polls s.send_op of_send ++ polls s.get_result_op of_get_result

module _ {N R : Type 0} (pq : Native N R) where
  -- `async_request_op::operator()`: the timer is started before the query is sent.
  unfoldable pub timed_request : ℕ → N → Bytes → Option (Timed N)
  timed_request fuel n error_context =
      Option.map (λ s. record { request = s; timer = running; calls = 0; cancels = 0 })
        (async_request pq fuel n error_context)

  module _ (process : R → Option Bytes) where
    -- The turns of the operations that run with `operation_aborted`.
    unfoldable pub aborted : List Turn → Request N → Request N
    aborted [] s = s
    aborted (of_send ∷ turns) s = aborted turns (send_step pq operation_aborted s)
    aborted (of_get_result ∷ turns) s =
        aborted turns (get_result_step pq process operation_aborted s)

    -- A turn of an operation, the call of a handler that has been posted, the timer that expires, or
    -- its callback.
    pub data TimedStep : Timed N → Timed N → Type 0 where
      turn :
          (t : Timed N) (s : Request N)
          → Step pq process t.request s
          → TimedStep t (record t { request = s })
      handler :
          (t : Timed N) → t.calls < length t.request.posted_codes → TimedStep t (handler_called t)
      expires : (t : Timed N) → t.timer ≡ running → TimedStep t (record t { timer = expired })
      callback :
          (t : Timed N) (ec : ErrorCode)
          → CalledWith t.timer ec
          → TimedStep t (timeout_handler ec (record t { timer = ended t.timer }))

    pub data TimedReachable (t₀ : Timed N) : Timed N → Type 0 where
      begins : TimedReachable t₀ t₀
      goes_on : (t t' : Timed N) → TimedReachable t₀ t → TimedStep t t' → TimedReachable t₀ t'
