-- ===== src/Async/Request/OutHandler/Received.antt =====
-- The results that a request reports with success.
use ozo.Prelude.{
  ◌≡◌, ◌≢◌, refl, ap, sym, ◌∙◌, arith, List, [], ◌∷◌, ◌++◌, Bytes, Option, none, some, inl, inr,
  ◌⊎◌, last_of,
}
use ozo.Prelude.Result.{ok, Result-cases}
use ozo.Errors.Codes.{ErrorCode, Code}
use ozo.Errors.SqlState.{result_error}
use ozo.Io.OidMap.{OidMap}
use ozo.Io.Stream.{Failure}
use ozo.Rows.{PgResult}
use ozo.Rows.Receive.{RowType, ElRow, recv_result}
use ozo.Async.Native.{
  Native, ResultStatus, single_tuple, tuples_ok, command_ok, bad_response, empty_query, fatal_error,
  get_result_status_name,
}
use ozo.Async.Request.{
  Request, handle_result, process_and_done, consumed, done_with, get_result_failed,
}
use ozo.Async.Request.OutHandler.{out_handler}

result_error_fails : (field : Option Bytes) → result_error field ≢ ErrorCode.success
unfolding result_error
result_error_fails none e = ground (arith, e)
result_error_fails (some text) e = ground (arith, e)

module _ {N : Type 0} where
  -- The handler is posted with success.
  abbrev pub Succeeds : Request N → Request N → Type 0
  Succeeds s s' = s'.posted_codes ≡ s.posted_codes ++ ErrorCode.success ∷ []

module _ {N : Type 0} (pq : Native N PgResult) where
  pub failed-Succeeds :
      (ec : ErrorCode) (s : Request N)
      → ec ≢ ErrorCode.success
      → ¬ Succeeds s (get_result_failed pq ec s)
  unfolding get_result_failed done_with
  failed-Succeeds ec s h e = h (last_of s.posted_codes ec ErrorCode.success e)

  refused-Succeeds :
      (ec : ErrorCode) (s : Request N)
      → ec ≢ ErrorCode.success
      → ¬ Succeeds s (consumed pq (get_result_failed pq ec s))
  unfolding consumed
  refused-Succeeds ec s h e = failed-Succeeds ec s h e

  module _ (what : Failure → Bytes) (oids : OidMap) (r : RowType) (out : List (ElRow r)) where
    -- All the rows of the result are received into the output.
    abbrev pub AreReceived : PgResult → Type 0
    AreReceived res = (received : List (ElRow r)) × (recv_result res oids r out ≡ ok received)

    -- There is no result, it is one without rows, or its rows are received.
    abbrev pub IsHandled : Option PgResult → Type 0
    IsHandled next =
        (next ≡ none)
        ⊎ ((res : PgResult) × (next ≡ some res)
            × ((pq.pq_result_status res ≡ command_ok) ⊎ AreReceived res))

    processed-AreReceived :
        (res : PgResult) (s : Request N)
        → Succeeds s (process_and_done pq (out_handler what oids r out) res s)
        → AreReceived res
    unfolding process_and_done out_handler
    processed-AreReceived res s h = elim (Result-cases (recv_result res oids r out)) [
      | inl e ↦
          let thrown : out_handler what oids r out res ≡ some (what e.0) =
            rw (out_handler, e.1) refl in
          let refused : process_and_done pq (out_handler what oids r out) res s
              ≡ get_result_failed pq (ErrorCode.error Code.bad_result_process)
                  (record s { error_context = what e.0 }) =
            rw (process_and_done, thrown) refl in
          absurd (
            failed-Succeeds (ErrorCode.error Code.bad_result_process)
              (record s { error_context = what e.0 }) (λ e. ground (arith, e))
              (ap (λ (u : Request N). u.posted_codes) (sym refused) ∙ h))
      | inr e ↦ e
    ]

    pub handled-AreReceived :
        (status : ResultStatus) (res : PgResult) (s : Request N)
        → Succeeds s (handle_result pq (out_handler what oids r out) status res s)
        → (status ≡ command_ok) ⊎ AreReceived res
    unfolding handle_result consumed
    handled-AreReceived single_tuple res s h = inr (processed-AreReceived res s h)
    handled-AreReceived tuples_ok res s h = inr (processed-AreReceived res s h)
    handled-AreReceived command_ok res s h = inl refl
    handled-AreReceived bad_response res s h = absurd (
        refused-Succeeds (ErrorCode.error Code.result_status_bad_response) s
          (λ e. ground (arith, e)) h)
    handled-AreReceived empty_query res s h = absurd (
        refused-Succeeds (ErrorCode.error Code.result_status_empty_query) s (λ e. ground (arith, e))
          h)
    handled-AreReceived fatal_error res s h = absurd (
        refused-Succeeds (result_error (pq.pq_result_error_field res)) s
          (result_error_fails (pq.pq_result_error_field res)) h)
    handled-AreReceived status res s h = absurd (
        refused-Succeeds (ErrorCode.error Code.result_status_unexpected)
          (record s { error_context = get_result_status_name status }) (λ e. ground (arith, e)) h)
