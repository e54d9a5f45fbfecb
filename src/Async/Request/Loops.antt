-- ===== src/Async/Request/Loops.antt =====
-- The two loops of a request that call libpq until it gives the value that ends them.
use ozo.Prelude.{
  ℕ, zero, suc, ◌<◌, ◌≡◌, ◌≢◌, refl, inl, inr, arith, true, false, Option, none, some, Bytes,
  Option-cases,
}
use ozo.Errors.Codes.{ErrorCode, Code}
use ozo.Errors.SqlState.{result_error}
use ozo.Async.Native.{
  Native, IsDraining, ResultStatus, single_tuple, tuples_ok, command_ok, bad_response, empty_query,
  fatal_error, get_result_status_name,
}
use ozo.Async.Request.{
  Request, done, get_result_failed, consumed, process_and_done, handle_result, send_loop,
  send_perform, async_request, consume_result,
}

module _ {N R : Type 0} (pq : Native N R) where
  -- The connection after `k` attempts to send.
  abbrev pub attempted : ℕ → N → N
  attempted zero n = n
  attempted (suc k) n = attempted k ((pq.pq_send_query_params n).1)

  -- The first `k` attempts fail, and the next one succeeds.
  abbrev pub SendsAfter : ℕ → N → Type 0
  SendsAfter zero n = (pq.pq_send_query_params n).0 ≡ true
  SendsAfter (suc k) n =
      ((pq.pq_send_query_params n).0 ≡ false) × SendsAfter k ((pq.pq_send_query_params n).1)

  -- The loop ends after the first attempt that succeeds, for any fuel that allows the attempts.
  send_loop-SendsAfter :
      (k fuel : ℕ) (n : N)
      → SendsAfter k n
      → k < fuel
      → send_loop pq fuel n ≡ some (attempted (suc k) n)
  unfolding send_loop
  send_loop-SendsAfter k zero n h l = absurd (omega (arith, l))
  send_loop-SendsAfter zero (suc fuel) n h l = rw (send_loop, h) refl
  send_loop-SendsAfter (suc k) (suc fuel) n h l =
      rw (send_loop, h.0)
        (send_loop-SendsAfter k fuel ((pq.pq_send_query_params n).1) h.1 (omega (arith, l)))

  send_loop_endless :
      ((n : N) → (pq.pq_send_query_params n).0 ≡ false)
      → (fuel : ℕ) (n : N) → send_loop pq fuel n ≡ none
  unfolding send_loop
  send_loop_endless h zero n = refl
  send_loop_endless h (suc fuel) n =
      rw (send_loop, h n) (send_loop_endless h fuel ((pq.pq_send_query_params n).1))

  -- On a connection where PQsetnonblocking succeeds and PQsendQueryParams fails whenever it is called,
  -- `async_request` does not return, whatever the fuel.
  pub async_request_endless :
      (fuel : ℕ) (n : N) (error_context : Bytes)
      → ((n : N) → (pq.pq_send_query_params n).0 ≡ false)
      → (pq.pq_set_nonblocking n).0 ≡ false
      → async_request pq fuel n error_context ≡ none
  unfolding async_request send_perform
  async_request_endless fuel n error_context h e =
      rw (async_request, send_perform, e, send_loop_endless h fuel ((pq.pq_set_nonblocking n).1))
        refl

  -- The last call of the loop returned no result.
  abbrev pub Drained : N → Type 0
  Drained n = (m : N) × ((pq.pq_get_result m).0 ≡ none) × ((pq.pq_get_result m).1 ≡ n)

  -- With enough fuel for the results that are left, the loop ends because there is none left.
  pub consume_result-Drained :
      (fuel : ℕ) (n : N)
      → IsDraining pq
      → pq.results_left n < fuel
      → Drained (consume_result pq fuel n)
  unfolding consume_result
  consume_result-Drained zero n drains h = absurd (omega (arith, h))
  consume_result-Drained (suc fuel) n drains h =
      let next = pq.pq_get_result n in
      elim (Option-cases next.0) [
        | inl e ↦ (n, e, rw (consume_result, e) refl)
        | inr e ↦
            let fewer = drains n e.0 e.1 in
            rw (consume_result, e.1)
              (consume_result-Drained fuel next.1 drains (omega (arith, h, fewer)))
      ]

  consumed-Drained : (s : Request N) → IsDraining pq → Drained (consumed pq s).native
  unfolding consumed
  consumed-Drained s drains =
      consume_result-Drained (suc (pq.results_left s.native)) s.native drains (omega arith)

  -- Where PQgetResult hands out each result once, the operation has taken every result of the query
  -- from the connection before it ends, for every status but that of a single row.
  pub handle_result-Drained :
      (process : R → Option Bytes) (status : ResultStatus) (r : R) (s : Request N)
      → IsDraining pq
      → status ≢ single_tuple
      → Drained (handle_result pq process status r s).native
  unfolding handle_result
  handle_result-Drained process single_tuple r s drains ne = absurd (ne refl)
  handle_result-Drained process tuples_ok r s drains ne =
      consumed-Drained (process_and_done pq process r s) drains
  handle_result-Drained process command_ok r s drains ne = consumed-Drained (done pq s) drains
  handle_result-Drained process bad_response r s drains ne =
      consumed-Drained (get_result_failed pq (ErrorCode.error Code.result_status_bad_response) s)
        drains
  handle_result-Drained process empty_query r s drains ne =
      consumed-Drained (get_result_failed pq (ErrorCode.error Code.result_status_empty_query) s)
        drains
  handle_result-Drained process fatal_error r s drains ne =
      consumed-Drained (get_result_failed pq (result_error (pq.pq_result_error_field r)) s) drains
  handle_result-Drained process status r s drains ne =
      consumed-Drained
        (get_result_failed pq (ErrorCode.error Code.result_status_unexpected)
          (record s { error_context = get_result_status_name status }))
        drains
