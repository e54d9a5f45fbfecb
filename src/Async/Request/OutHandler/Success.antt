-- ===== src/Async/Request/OutHandler/Success.antt =====
-- When a turn of a request posts its handler with success.
use ozo.Prelude.{
  ◌≡◌, refl, ap, sym, ◌∙◌, arith, List, Bytes, true, false, inl, inr, Option-cases, Bool-cases,
  if◌then◌else◌, one_more,
}
use ozo.Errors.Codes.{ErrorCode, Code, is_error}
use ozo.Io.OidMap.{OidMap}
use ozo.Io.Stream.{Failure}
use ozo.Rows.{PgResult}
use ozo.Rows.Receive.{RowType, ElRow}
use ozo.Async.Native.{Native, is_failed, is_bad_descriptor, operation_aborted}
use ozo.Async.Request.{
  Resume, at_start, behind_read_poll, Request, finished, get_result_step, reenter, while_busy,
  take_result, handle_result, get_result_failed,
}
use ozo.Async.Request.OutHandler.{out_handler}
use ozo.Async.Request.OutHandler.Received.{
  Succeeds, failed-Succeeds, IsHandled, handled-AreReceived,
}

module _ {N : Type 0} (pq : Native N PgResult) where
  -- What libpq's connection is when the turn looks for the result.
  abbrev pub with_input : Resume → N → N
  with_input at_start n = n
  with_input behind_read_poll n = (pq.pq_consume_input n).1

  module _ (what : Failure → Bytes) (oids : OidMap) (r : RowType) (out : List (ElRow r)) where
    -- libpq has the whole result, and the result is handled.
    abbrev pub HasResult : N → Type 0
    HasResult n =
        ((pq.pq_is_busy n).0 ≡ false)
        × IsHandled pq what oids r out (pq.pq_get_result ((pq.pq_is_busy n).1)).0

    take_result-IsHandled :
        (s : Request N)
        → Succeeds s (take_result pq (out_handler what oids r out) s)
        → IsHandled pq what oids r out (pq.pq_get_result s.native).0
    unfolding take_result
    take_result-IsHandled s h =
        let next = pq.pq_get_result s.native in
        let s' : Request N = record s { native = next.1 } in
        elim (Option-cases next.0) [
          | inl e ↦ inl e
          | inr e ↦
              let taken : take_result pq (out_handler what oids r out) s
                  ≡ handle_result pq (out_handler what oids r out) (pq.pq_result_status e.0) e.0
                      s' =
                rw (take_result, e.1) refl in
              inr (
                e.0,
                e.1,
                handled-AreReceived pq what oids r out (pq.pq_result_status e.0) e.0 s'
                    (ap (λ (u : Request N). u.posted_codes) (sym taken) ∙ h),
              )
        ]

    while_busy-HasResult :
        (s : Request N)
        → Succeeds s (while_busy pq (out_handler what oids r out) s)
        → HasResult s.native
    unfolding while_busy
    while_busy-HasResult s h =
        let busy = pq.pq_is_busy s.native in
        elim (Bool-cases busy.0) [
          | inl e ↦
              let waits : (while_busy pq (out_handler what oids r out) s).posted_codes
                  ≡ s.posted_codes =
                rw (while_busy, e) refl in
              absurd (one_more s.posted_codes ErrorCode.success (sym waits ∙ h))
          | inr e ↦
              let s' : Request N = record s { native = busy.1 } in
              let takes : while_busy pq (out_handler what oids r out) s
                  ≡ take_result pq (out_handler what oids r out) s' =
                rw (while_busy, e) refl in
              (e, take_result-IsHandled s' (ap (λ (u : Request N). u.posted_codes) (sym takes) ∙ h))
        ]

    reenter-HasResult :
        (resume : Resume) (s : Request N)
        → Succeeds s (reenter pq (out_handler what oids r out) resume s)
        → HasResult (with_input resume s.native)
    unfolding reenter
    reenter-HasResult at_start s h = while_busy-HasResult s h
    reenter-HasResult behind_read_poll s h =
        let consume = pq.pq_consume_input s.native in
        let s' : Request N = record s { native = consume.1 } in
        elim (Bool-cases consume.0) [
          | inl e ↦
              let goes_on : reenter pq (out_handler what oids r out) behind_read_poll s
                  ≡ while_busy pq (out_handler what oids r out) s' =
                rw (reenter, e) refl in
              while_busy-HasResult s' (ap (λ (u : Request N). u.posted_codes) (sym goes_on) ∙ h)
          | inr e ↦
              let fails : reenter pq (out_handler what oids r out) behind_read_poll s
                  ≡ get_result_failed pq (ErrorCode.error Code.pg_consume_input_failed) s' =
                rw (reenter, e) refl in
              absurd (
                failed-Succeeds pq (ErrorCode.error Code.pg_consume_input_failed) s'
                  (λ e. ground (arith, e)) (ap (λ (u : Request N). u.posted_codes) (sym fails) ∙ h))
        ]

    error-Succeeds :
        (ec : ErrorCode) (s : Request N)
        → is_error ec ≡ true
        → ¬ Succeeds s
            (get_result_failed pq (if is_bad_descriptor ec then operation_aborted else ec) s)
    unfolding is_error is_bad_descriptor
    error-Succeeds ErrorCode.success s f h = ground (arith, f)
    error-Succeeds (ErrorCode.error code) s f h =
        failed-Succeeds pq (ErrorCode.error code) s (λ e. ground (arith, e)) h
    error-Succeeds (ErrorCode.sqlstate n) s f h =
        failed-Succeeds pq (ErrorCode.sqlstate n) s (λ e. ground (arith, e)) h
    error-Succeeds (ErrorCode.system n) s f h =
        elim (Bool-cases (is_bad_descriptor (ErrorCode.system n))) [
          | inl b ↦ failed-Succeeds pq operation_aborted s (λ e. ground (arith, e)) (rw b at h)
          | inr b ↦ failed-Succeeds pq (ErrorCode.system n) s (λ e. ground (arith, e)) (rw b at h)
        ]

    -- A turn of the operation, wherever it goes on and whatever code it is called with, posts the
    -- handler with success only if it has not been called with an error, libpq is not busy once
    -- the input behind a read poll is consumed, and there is no result, or the result has the
    -- status PGRES_COMMAND_OK, or all its rows are received into the output.
    pub get_result_step-HasResult :
        (ec : ErrorCode) (s : Request N)
        → Succeeds s (get_result_step pq (out_handler what oids r out) ec s)
        → (is_error ec ≡ false) × HasResult (with_input s.resume s.native)
    unfolding get_result_step
    get_result_step-HasResult ec s h =
        let s' : Request N = record s { get_result_op = finished } in
        elim (Bool-cases (is_failed s.state)) [
          | inl f ↦
              let dead : get_result_step pq (out_handler what oids r out) ec s ≡ s' =
                rw (get_result_step, f) refl in
              absurd (
                one_more s.posted_codes ErrorCode.success
                  (ap (λ (u : Request N). u.posted_codes) (sym dead) ∙ h))
          | inr f ↦ elim (Bool-cases (is_error ec)) [
            | inl g ↦
                let fails : get_result_step pq (out_handler what oids r out) ec s
                    ≡ get_result_failed pq (if is_bad_descriptor ec then operation_aborted else ec)
                        s' =
                  rw (get_result_step, f, g) refl in
                absurd
                  (error-Succeeds ec s' g (ap (λ (u : Request N). u.posted_codes) (sym fails) ∙ h))
            | inr g ↦
                let goes_on : get_result_step pq (out_handler what oids r out) ec s
                    ≡ reenter pq (out_handler what oids r out) s.resume s' =
                  rw (get_result_step, f, g) refl in
                (
                  g,
                  reenter-HasResult s.resume s'
                      (ap (λ (u : Request N). u.posted_codes) (sym goes_on) ∙ h),
                )
          ]
        ]
