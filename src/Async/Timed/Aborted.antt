-- ===== src/Async/Timed/Aborted.antt =====
-- A request whose time is up.
use mathlib.Core.Path.{subst}
use ozo.Prelude.{
  ◌≡◌, refl, ap, sym, ◌⊎◌, inl, inr, true, false, List, [], ◌∷◌, ◌++◌, Option, Bytes, Bool-cases,
}
use ozo.Errors.Codes.{is_error}
use ozo.Async.Native.{
  QueryState, Native, is_failed, is_sending, is_bad_descriptor, operation_aborted,
}
use ozo.Async.Request.{
  Wait, finished, posted, polling, Request, done_with, get_result_failed, send_step,
  get_result_step,
}
use ozo.Async.Request.Turns.{dead_turn}
use ozo.Async.Timed.{Turn, swapped, cancelled_polls, polls, aborted}

-- The turns in the order in which the operations have begun to wait, or in the other one.
abbrev pub EitherOrder : List Turn → List Turn → Type 0
EitherOrder turns polls = (turns ≡ polls) ⊎ (turns ≡ swapped polls)

module _ {N R : Type 0} (pq : Native N R) (process : R → Option Bytes) where
  -- The handler has been called with `operation_aborted`, and nothing waits for the socket.
  abbrev pub EndsAborted : Request N → Request N → Type 0
  EndsAborted s s' =
      (s'.posted_codes ≡ s.posted_codes ++ operation_aborted ∷ [])
      × (s'.state ≡ QueryState.error)
      × (cancelled_polls s' ≡ [])

  abort_get_result :
      (s : Request N)
      → is_failed s.state ≡ false
      → get_result_step pq process operation_aborted s
        ≡ get_result_failed pq operation_aborted (record s { get_result_op = finished })
  unfolding get_result_step is_error is_bad_descriptor
  abort_get_result s h = rw h refl

  abort_send :
      (s : Request N)
      → is_sending s.state ≡ true
      → send_step pq operation_aborted s
        ≡ done_with pq operation_aborted (record s { send_op = finished })
  unfolding send_step is_error
  abort_send s h = rw h refl

  -- The sending that runs first ends with the error, if the query is still being sent; then the
  -- operation for the result has nothing left to say.
  send_first :
      (s : Request N)
      → is_failed s.state ≡ false
      → EndsAborted s
          (get_result_step pq process operation_aborted (send_step pq operation_aborted s))
  unfolding cancelled_polls done_with is_failed get_result_failed send_step
  send_first s h = elim (Bool-cases (is_sending s.state)) [
    | inl e ↦ rw (abort_send s e) (
        rw
          (dead_turn pq process operation_aborted
            (done_with pq operation_aborted (record s { send_op = finished })) refl)
          (refl, refl, refl))
    | inr e ↦ rw e (rw (abort_get_result (record s { send_op = finished }) h) (refl, refl, refl))
  ]

  -- The operation for the result that runs first ends with the error, and the sending goes on no more.
  get_result_first :
      (s : Request N)
      → is_failed s.state ≡ false
      → EndsAborted s
          (send_step pq operation_aborted (get_result_step pq process operation_aborted s))
  unfolding cancelled_polls done_with get_result_failed send_step is_sending
  get_result_first s h = rw (abort_get_result s h) (refl, refl, refl)

  get_result_alone :
      (s : Request N)
      → is_failed s.state ≡ false
      → cancelled_polls (record s { get_result_op = finished }) ≡ []
      → EndsAborted s (get_result_step pq process operation_aborted s)
  unfolding done_with get_result_failed cancelled_polls
  get_result_alone s h e = rw (abort_get_result s h) (refl, refl, e)

  -- By what the sending waits for, where the operation for the result polls.
  abbrev Ends : Wait → Request N → Type 0
  Ends wait s =
      (turns : List Turn)
      → EitherOrder turns (cancelled_polls (record s { send_op = wait; get_result_op = polling }))
      → EndsAborted s
          (aborted pq process turns (record s { send_op = wait; get_result_op = polling }))

  each_wait-Ends : (wait : Wait) (s : Request N) → is_failed s.state ≡ false → Ends wait s
  unfolding aborted cancelled_polls
  each_wait-Ends polling s h turns (inl e) =
      rw e (send_first (record s { send_op = polling; get_result_op = polling }) h)
  each_wait-Ends polling s h turns (inr e) =
      rw e (get_result_first (record s { send_op = polling; get_result_op = polling }) h)
  each_wait-Ends finished s h turns (inl e) =
      rw e (get_result_alone (record s { send_op = finished; get_result_op = polling }) h refl)
  each_wait-Ends finished s h turns (inr e) =
      rw e (get_result_alone (record s { send_op = finished; get_result_op = polling }) h refl)
  each_wait-Ends posted s h turns (inl e) =
      rw e (get_result_alone (record s { send_op = posted; get_result_op = polling }) h refl)
  each_wait-Ends posted s h turns (inr e) =
      rw e (get_result_alone (record s { send_op = posted; get_result_op = polling }) h refl)

  -- Where a request that is not in the error state waits for its result, the callback of the timer
  -- makes it end: the polls that it cancels, in either order, call the handler once, with
  -- `operation_aborted`, put the request into the error state, and leave nothing waiting for the
  -- socket.
  pub aborted-EndsAborted :
      (s : Request N) (turns : List Turn)
      → is_failed s.state ≡ false
      → s.get_result_op ≡ polling
      → EitherOrder turns (cancelled_polls s)
      → EndsAborted s (aborted pq process turns s)
  aborted-EndsAborted s turns h p order =
      let with_polling : s ≡ record s { get_result_op = polling } =
        ap (λ (w : Wait). record s { get_result_op = w }) p in
      subst (λ (r : Request N). EndsAborted s (aborted pq process turns r)) (sym with_polling)
        (each_wait-Ends s.send_op s h turns
          (subst (λ (r : Request N). EitherOrder turns (cancelled_polls r)) with_polling order))
