-- ===== src/Async/Request/Outcome.antt =====
-- What one turn of `async_get_result_op` does to the request.
use ozo.Prelude.{
  ◌≡◌, refl, ◌⊎◌, inl, inr, false, [], ◌∷◌, ◌++◌, Option, Bytes, Option-cases, Bool-cases,
  if◌then◌else◌,
}
use ozo.Errors.Codes.{ErrorCode, Code, is_error}
use ozo.Errors.SqlState.{result_error}
use ozo.Async.Native.{
  QueryState, ResultStatus, single_tuple, tuples_ok, command_ok, bad_response, empty_query,
  fatal_error, Native, is_failed, is_bad_descriptor, get_result_status_name, operation_aborted,
}
use ozo.Async.Request.{
  finished, polling, Resume, at_start, behind_read_poll, Request, done_with, done,
  get_result_failed, consumed, process_and_done, handle_result, take_result, while_busy, reenter,
  get_result_step,
}

module _ {N : Type 0} where
  -- The handler is posted once, and an error code puts the request into the error state.
  abbrev pub Completes : Request N → Request N → Type 0
  Completes s s' =
      (ec : ErrorCode) × ((s'.posted_codes ≡ s.posted_codes ++ ec ∷ [])
        × (s'.get_result_op ≡ s.get_result_op)
        × (s'.send_op ≡ s.send_op)
        × ((s'.state ≡ QueryState.error) ⊎ ((s'.state ≡ s.state) × (ec ≡ ErrorCode.success))))

  -- The socket is polled for the next input.
  abbrev pub Waits : Request N → Request N → Type 0
  Waits s s' =
      (s'.posted_codes ≡ s.posted_codes)
      × (s'.get_result_op ≡ polling)
      × (s'.send_op ≡ s.send_op)
      × (s'.state ≡ s.state)

  abbrev pub Outcome : Request N → Request N → Type 0
  Outcome s s' = Completes s s' ⊎ Waits s s'

module _ {N R : Type 0} (pq : Native N R) where
  pub failed-Completes : (ec : ErrorCode) (s : Request N) → Completes s (get_result_failed pq ec s)
  unfolding get_result_failed done_with
  failed-Completes ec s = (ec, (refl, refl, refl, inl refl))

  done-Completes : (s : Request N) → Completes s (done pq s)
  unfolding done
  done-Completes s = (ErrorCode.success, (refl, refl, refl, inr (refl, refl)))

  consumed-Completes : (s s' : Request N) → Completes s s' → Completes s (consumed pq s')
  unfolding consumed
  consumed-Completes s s' h = h

  refused-Completes :
      (ec : ErrorCode) (s : Request N) → Completes s (consumed pq (get_result_failed pq ec s))
  refused-Completes ec s = consumed-Completes s (get_result_failed pq ec s) (failed-Completes ec s)

  module _ (process : R → Option Bytes) where
    processed-Completes : (r : R) (s : Request N) → Completes s (process_and_done pq process r s)
    unfolding process_and_done
    processed-Completes r s = elim (Option-cases (process r)) [
      | inl e ↦ rw (process_and_done, e) (done-Completes s)
      | inr e ↦
          rw (process_and_done, e.1)
            (failed-Completes (ErrorCode.error Code.bad_result_process)
              (record s { error_context = e.0 }))
    ]

    handled-Completes :
        (status : ResultStatus) (r : R) (s : Request N)
        → Completes s (handle_result pq process status r s)
    unfolding handle_result
    handled-Completes single_tuple r s = processed-Completes r s
    handled-Completes tuples_ok r s =
        consumed-Completes s (process_and_done pq process r s) (processed-Completes r s)
    handled-Completes command_ok r s = consumed-Completes s (done pq s) (done-Completes s)
    handled-Completes bad_response r s =
        refused-Completes (ErrorCode.error Code.result_status_bad_response) s
    handled-Completes empty_query r s =
        refused-Completes (ErrorCode.error Code.result_status_empty_query) s
    handled-Completes fatal_error r s =
        refused-Completes (result_error (pq.pq_result_error_field r)) s
    handled-Completes status r s =
        refused-Completes (ErrorCode.error Code.result_status_unexpected)
          (record s { error_context = get_result_status_name status })

    taken-Completes : (s : Request N) → Completes s (take_result pq process s)
    unfolding take_result
    taken-Completes s =
        let next = pq.pq_get_result s.native in
        let s' : Request N = record s { native = next.1 } in
        elim (Option-cases next.0) [
          | inl e ↦ rw (take_result, e) (done-Completes s')
          | inr e ↦ rw (take_result, e.1) (handled-Completes (pq.pq_result_status e.0) e.0 s')
        ]

    while_busy-Outcome : (s : Request N) → Outcome s (while_busy pq process s)
    unfolding while_busy
    while_busy-Outcome s =
        let busy = pq.pq_is_busy s.native in
        elim (Bool-cases busy.0) [
          | inl e ↦ rw (while_busy, e) (inr (refl, refl, refl, refl))
          | inr e ↦ rw (while_busy, e) (inl (taken-Completes (record s { native = busy.1 })))
        ]

    reenter-Outcome : (resume : Resume) (s : Request N) → Outcome s (reenter pq process resume s)
    unfolding reenter
    reenter-Outcome at_start s = while_busy-Outcome s
    reenter-Outcome behind_read_poll s =
        let consume = pq.pq_consume_input s.native in
        let s' : Request N = record s { native = consume.1 } in
        elim (Bool-cases consume.0) [
          | inl e ↦ rw (reenter, e) (while_busy-Outcome s')
          | inr e ↦
              rw (reenter, e)
                (inl (failed-Completes (ErrorCode.error Code.pg_consume_input_failed) s'))
        ]

    -- What follows the test of the state.
    abbrev turn : ErrorCode → Request N → Request N
    turn ec s =
        if is_error ec
        then get_result_failed pq (if is_bad_descriptor ec then operation_aborted else ec) s
        else reenter pq process s.resume s

    turn-Outcome : (ec : ErrorCode) (s : Request N) → Outcome s (turn ec s)
    turn-Outcome ec s = elim (Bool-cases (is_error ec)) [
      | inl e ↦
          rw e (inl (failed-Completes (if is_bad_descriptor ec then operation_aborted else ec) s))
      | inr e ↦ rw e (reenter-Outcome s.resume s)
    ]

    -- A turn of the operation, outside the error state, either posts the handler once and ends the
    -- operation, or leaves it waiting for the socket; it never ends without posting the handler.
    pub get_result_step-Outcome :
        (ec : ErrorCode) (s : Request N)
        → is_failed s.state ≡ false
        → Outcome (record s { get_result_op = finished }) (get_result_step pq process ec s)
    unfolding get_result_step
    get_result_step-Outcome ec s h = rw h (turn-Outcome ec (record s { get_result_op = finished }))
