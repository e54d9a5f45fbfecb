-- ===== src/Async/Request/Turns.antt =====
-- What the turns of a request's operations do to the codes that its handler is posted with.
use mathlib.Core.Path.{subst}
use ozo.Prelude.{
  ◌≡◌, ◌≢◌, refl, ap, sym, ◌∙◌, ◌⊎◌, inl, inr, arith, true, false, not, [], ◌∷◌, ◌++◌, Option,
  Bytes, Bool-cases,
}
use ozo.Errors.Codes.{ErrorCode, Code, is_error}
use ozo.Async.Native.{QueryState, Native, is_failed, is_sending}
use ozo.Async.Request.{
  Wait, finished, posted, polling, Request, done_with, send_flushed, send_step, get_result_step,
}
use ozo.Async.Request.Outcome.{Outcome, get_result_step-Outcome}

-- The codes that asio resumes an operation with: a posted one runs without error.
abbrev pub Resumes : Wait → ErrorCode → Type 0
Resumes finished ec = ⊥
Resumes posted ec = ec ≡ ErrorCode.success
Resumes polling ec = Unit {0}

-- Where a request stands: its handler is not posted yet and the result is still waited for; it has
-- been posted with a failure or with success; or with a failure of the sending after a success.
pub data Phase {N : Type 0} (s : Request N) : Type 0 where
  waiting : s.posted_codes ≡ [] → is_failed s.state ≡ false → s.get_result_op ≢ finished → Phase s
  failed : (ec : ErrorCode) → s.posted_codes ≡ ec ∷ [] → is_failed s.state ≡ true → Phase s
  succeeded :
      s.posted_codes ≡ ErrorCode.success ∷ []
      → is_failed s.state ≡ false
      → s.get_result_op ≡ finished
      → Phase s
  failed_after :
      (ec : ErrorCode)
      → s.posted_codes ≡ ErrorCode.success ∷ ec ∷ []
      → is_failed s.state ≡ true
      → Phase s

module _ {N R : Type 0} (pq : Native N R) (process : R → Option Bytes) where
  pub data Step : Request N → Request N → Type 0 where
    send_turn : (s : Request N) (ec : ErrorCode) → Resumes s.send_op ec → Step s (send_step pq ec s)
    get_result_turn :
        (s : Request N) (ec : ErrorCode)
        → Resumes s.get_result_op ec
        → Step s (get_result_step pq process ec s)

  -- The states that a request can reach from `s₀`.
  pub data Reachable (s₀ : Request N) : Request N → Type 0 where
    start : Reachable s₀ s₀
    step : (s s' : Request N) → Reachable s₀ s → Step s s' → Reachable s₀ s'

module _ {N R : Type 0} (pq : Native N R) where
  -- What a turn of the sending does: it fails, or leaves the codes and the result's operation alone.
  abbrev pub Sends : Request N → Request N → Type 0
  Sends s s' =
      (s'.get_result_op ≡ s.get_result_op)
      × (((s'.posted_codes ≡ s.posted_codes) × (is_failed s'.state ≡ is_failed s.state))
          ⊎ ((ec : ErrorCode) × (s'.posted_codes ≡ s.posted_codes ++ ec ∷ [])
              × (is_failed s.state ≡ false)
              × (is_failed s'.state ≡ true)))

  send_flushed-Sends :
      (q : QueryState) (s : Request N) → is_failed s.state ≡ false → Sends s (send_flushed pq q s)
  unfolding send_flushed done_with is_failed
  send_flushed-Sends QueryState.error s h =
      (refl, inr (ErrorCode.error Code.pg_flush_failed, refl, h, refl))
  send_flushed-Sends QueryState.send_in_progress s h = (refl, inl (refl, refl))
  send_flushed-Sends QueryState.send_finish s h = (refl, inl (refl, sym h))

  done_with-Sends :
      (ec : ErrorCode) (s : Request N) → is_failed s.state ≡ false → Sends s (done_with pq ec s)
  unfolding done_with is_failed
  done_with-Sends ec s h = (refl, inr (ec, refl, h, refl))

  is_sending-is_failed : (q : QueryState) → not (is_sending q) ≡ false → is_failed q ≡ false
  unfolding is_sending is_failed
  is_sending-is_failed QueryState.send_in_progress h = refl
  is_sending-is_failed QueryState.send_finish h = refl
  is_sending-is_failed QueryState.error h = ground (arith, h)

  pub send_step-Sends : (ec : ErrorCode) (s : Request N) → Sends s (send_step pq ec s)
  unfolding send_step
  send_step-Sends ec s =
      let s' : Request N = record s { send_op = finished } in
      let flush = pq.pq_flush_output s.native in
      elim (Bool-cases (not (is_sending s.state))) [
        | inl e ↦ rw e (refl, inl (refl, refl))
        | inr e ↦
            let live = is_sending-is_failed s.state e in
            elim (Bool-cases (is_error ec)) [
              | inl k ↦ rw (e, k) (done_with-Sends ec s' live)
              | inr k ↦ rw (e, k) (send_flushed-Sends flush.0 (record s' { native = flush.1 }) live)
            ]
      ]

  send-Phase : (s s' : Request N) → Sends s s' → Phase s → Phase s'
  send-Phase s s' (kept, inl (codes, state)) (waiting c q g) =
      waiting (codes ∙ c) (state ∙ q) (λ e. g (sym kept ∙ e))
  send-Phase s s' (kept, inl (codes, state)) (failed ec c q) = failed ec (codes ∙ c) (state ∙ q)
  send-Phase s s' (kept, inl (codes, state)) (succeeded c q g) =
      succeeded (codes ∙ c) (state ∙ q) (kept ∙ g)
  send-Phase s s' (kept, inl (codes, state)) (failed_after ec c q) =
      failed_after ec (codes ∙ c) (state ∙ q)
  send-Phase s s' (kept, inr (ec, codes, live, dead)) (waiting c q g) =
      failed ec (codes ∙ ap (λ cs. cs ++ ec ∷ []) c) dead
  send-Phase s s' (kept, inr (ec, codes, live, dead)) (failed ec' c q) = ground (arith, live, q)
  send-Phase s s' (kept, inr (ec, codes, live, dead)) (succeeded c q g) =
      failed_after ec (codes ∙ ap (λ cs. cs ++ ec ∷ []) c) dead
  send-Phase s s' (kept, inr (ec, codes, live, dead)) (failed_after ec' c q) =
      ground (arith, live, q)

  module _ (process : R → Option Bytes) where
    -- A turn in the error state leaves the rest alone.
    pub dead_turn :
        (ec : ErrorCode) (s : Request N)
        → is_failed s.state ≡ true
        → get_result_step pq process ec s ≡ record s { get_result_op = finished }
    unfolding get_result_step
    dead_turn ec s h = rw h refl

    live_turn-Phase :
        (s s' : Request N)
        → Outcome (record s { get_result_op = finished }) s'
        → s.posted_codes ≡ []
        → is_failed s.state ≡ false
        → Phase s'
    unfolding is_failed
    live_turn-Phase s s' (inl (ec, (codes, op, send, inl dead))) c q =
        failed ec (codes ∙ ap (λ cs. cs ++ ec ∷ []) c) (ap is_failed dead)
    live_turn-Phase s s' (inl (ec, (codes, op, send, inr (same, ok)))) c q =
        succeeded (codes ∙ ap (λ cs. cs ++ ec ∷ []) c ∙ ap (λ e. e ∷ []) ok) (ap is_failed same ∙ q)
          op
    live_turn-Phase s s' (inr (codes, op, send, same)) c q =
        waiting (codes ∙ c) (ap is_failed same ∙ q)
          (λ e. subst (λ w. Resumes w ErrorCode.success) (sym op ∙ e) tt)

    get_result-Phase :
        (s : Request N) (ec : ErrorCode)
        → Resumes s.get_result_op ec
        → Phase s
        → Phase (get_result_step pq process ec s)
    get_result-Phase s ec r (waiting c q g) =
        live_turn-Phase s (get_result_step pq process ec s)
          (get_result_step-Outcome pq process ec s q) c q
    get_result-Phase s ec r (failed ec' c q) = rw (dead_turn ec s q) (failed ec' c q)
    get_result-Phase s ec r (succeeded c q g) = absurd (subst (λ w. Resumes w ec) g r)
    get_result-Phase s ec r (failed_after ec' c q) = rw (dead_turn ec s q) (failed_after ec' c q)

    -- Every turn of every operation keeps the phase.
    Step-Phase : (s s' : Request N) → Step pq process s s' → Phase s → Phase s'
    Step-Phase _ _ (send_turn s ec r) h = send-Phase s (send_step pq ec s) (send_step-Sends ec s) h
    Step-Phase _ _ (get_result_turn s ec r) h = get_result-Phase s ec r h

    pub Reachable-Phase : (s₀ s : Request N) → Reachable pq process s₀ s → Phase s₀ → Phase s
    Reachable-Phase s₀ _ start h = h
    Reachable-Phase s₀ _ (step s s' r k) h = Step-Phase s s' k (Reachable-Phase s₀ s r h)
