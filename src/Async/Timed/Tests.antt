-- ===== src/Async/Timed/Tests.antt =====
-- Runs of a request whose time is up.
use ozo.Prelude.{◌≡◌, refl, true, [], ◌∷◌, inr, ℕ}
use ozo.Errors.Codes.{ErrorCode}
use ozo.Async.Native.{is_failed}
use ozo.Async.Request.{polling, Request}
use ozo.Async.Tests.{slow, process, begun}
use ozo.Async.Timed.{
  running, expired, timed_out, Timed, timeout_handler, of_send, of_get_result, cancelled_polls,
  aborted, is_operation_aborted,
}
use ozo.Async.Timed.Limits.{Limits}
use ozo.Async.Timed.Aborted.{EndsAborted, aborted-EndsAborted}

abbrev first : Timed ℕ
first = record { request = begun; timer = running; calls = 0; cancels = 0 }

abbrev due : Timed ℕ
due = record first { timer = expired }

abbrev over : Timed ℕ
over = timeout_handler ErrorCode.success (record due { timer = timed_out })

cancelled_once : over.cancels ≡ 1
unfolding timeout_handler is_operation_aborted
cancelled_once = refl

-- Both operations wait for the socket.
abbrev both_polling : Request ℕ
both_polling = record begun { send_op = polling; get_result_op = polling }

aborted-EndsAborted_example :
    EndsAborted
      (slow true)
      process
      both_polling
      (aborted (slow true) process (of_get_result ∷ of_send ∷ []) both_polling)
unfolding cancelled_polls is_failed
aborted-EndsAborted_example =
    aborted-EndsAborted (slow true) process both_polling (of_get_result ∷ of_send ∷ []) refl refl
      (inr refl)
