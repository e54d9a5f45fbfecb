-- ===== src/Async/Request/Completion.antt =====
-- How often the handler of a request is posted, over every order of the turns of its operations.
use mathlib.Core.Path.{subst}
use ozo.Prelude.{
  ℕ, ◌≡◌, refl, ap, sym, inl, inr, false, [], ◌∷◌, ◌++◌, Option, none, some, Bytes, Bool-cases,
  Option-cases,
}
use ozo.Errors.Codes.{ErrorCode, Code}
use ozo.Async.Native.{QueryState, Native, is_failed}
use ozo.Async.Request.{
  finished, posted, Request, done_with, at_start, send_perform, send_loop, async_request,
}
use ozo.Async.Request.Turns.{Phase, waiting, failed, Resumes, Reachable, Reachable-Phase}

module _ {N R : Type 0} (pq : Native N R) where
  -- A property of the request, if there is one.
  abbrev Holds : (Request N → Type 0) → Option (Request N) → Type 0
  Holds P none = Unit {0}
  Holds P (some s) = P s

  abbrev Begins : Request N → Type 0
  Begins s = Phase (record s { get_result_op = posted })

  send_perform-Begins :
      (fuel : ℕ) (s : Request N)
      → s.posted_codes ≡ []
      → is_failed s.state ≡ false
      → Holds Begins (send_perform pq fuel s)
  unfolding send_perform done_with is_failed
  send_perform-Begins fuel s c q =
      let mode = pq.pq_set_nonblocking s.native in
      let ec = ErrorCode.error Code.pg_set_nonblocking_failed in
      let s' : Request N = record s { native = mode.1 } in
      elim (Bool-cases mode.0) [
        | inl e ↦
            let ended : send_perform pq fuel s ≡ some (done_with pq ec s') =
              rw (send_perform, e) refl in
            subst (Holds Begins) (sym ended) (failed ec (ap (λ cs. cs ++ ec ∷ []) c) refl)
        | inr e ↦ elim (Option-cases (send_loop pq fuel mode.1)) [
          | inl k ↦
              let looping : send_perform pq fuel s ≡ none = rw (send_perform, e, k) refl in
              subst (Holds Begins) (sym looping) tt
          | inr k ↦
              let sent : send_perform pq fuel s
                  ≡ some (record s' { native = k.0; send_op = posted }) =
                rw (send_perform, e, k.1) refl in
              subst (Holds Begins) (sym sent)
                (waiting c q (λ p. subst (λ w. Resumes w ErrorCode.success) p refl))
        ]
      ]

  async_request-Holds :
      (fuel : ℕ) (n : N) (error_context : Bytes)
      → Holds Phase (async_request pq fuel n error_context)
  unfolding async_request is_failed
  async_request-Holds fuel n error_context =
      let first : Request N = record {
        native = n;
        error_context = error_context;
        state = QueryState.send_in_progress;
        send_op = finished;
        get_result_op = finished;
        resume = at_start;
        posted_codes = [];
      } in
      let begins = send_perform-Begins fuel first refl refl in
      elim (Option-cases (send_perform pq fuel first)) [
        | inl k ↦
            let looping : async_request pq fuel n error_context ≡ none =
              rw (async_request, k) refl in
            subst (Holds Phase) (sym looping) tt
        | inr k ↦
            let begun : async_request pq fuel n error_context
                ≡ some (record (k.0) { get_result_op = posted }) =
              rw (async_request, k.1) refl in
            subst (Holds Phase) (sym begun) (subst (Holds Begins) (k.1) begins)
      ]

  -- In every state that a request reaches, in any order of the turns of its operations, the handler
  -- has not been posted, and then the operation for the result still waits; or it has been posted
  -- once; or it has been posted with success, and once more with a failure of the sending.
  pub async_request-Phase :
      (process : R → Option Bytes) (fuel : ℕ) (n : N) (error_context : Bytes) (s₀ s : Request N)
      → async_request pq fuel n error_context ≡ some s₀
      → Reachable pq process s₀ s
      → Phase s
  async_request-Phase process fuel n error_context s₀ s h r =
      Reachable-Phase pq process s₀ s r
        (subst (Holds Phase) h (async_request-Holds fuel n error_context))
