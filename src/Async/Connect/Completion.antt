-- ===== src/Async/Connect/Completion.antt =====
-- How often the handler of a connection is posted.
use mathlib.Core.Path.{subst}
use ozo.Prelude.{◌≡◌, ◌≢◌, refl, ap, ◌∙◌, inl, inr, [], ◌∷◌, ◌++◌, Bytes, Bool-cases, Option-cases}
use ozo.Errors.Codes.{ErrorCode, Code, is_error}
use ozo.Async.Connect.{
  Connector, PollingStatus, polling_failed, polling_reading, polling_writing, polling_ok,
  polling_active, Poll, no_poll, write_poll, read_poll, Connecting, done, assign_socket, started,
  perform, polled, resume,
}

-- A connection waits for its socket, under a running timer, and its handler is not posted yet; or it
-- waits no more, and the handler has been posted once.
pub data Phase {N : Type 0} (s : Connecting N) : Type 0 where
  waiting : s.posted_codes ≡ [] → s.poll ≢ no_poll → Phase s
  completed : (ec : ErrorCode) → s.posted_codes ≡ ec ∷ [] → s.poll ≡ no_poll → Phase s

abbrev IsWaiting : Poll → Type 0
IsWaiting no_poll = ⊥
IsWaiting _ = Unit {0}

module _ {N : Type 0} (pq : Connector N) where
  -- The polls that end, each with any error code, on the way from one state to another.
  pub data Reachable (s₀ : Connecting N) : Connecting N → Type 0 where
    start : Reachable s₀ s₀
    step :
        (s : Connecting N) (ec : ErrorCode)
        → Reachable s₀ s
        → s.poll ≢ no_poll
        → Reachable s₀ (resume pq ec s)

  done-Phase : (ec : ErrorCode) (s : Connecting N) → s.posted_codes ≡ [] → Phase (done pq ec s)
  unfolding done
  done-Phase ec s c = completed ec (ap (λ cs. cs ++ ec ∷ []) c) refl

  waits : (p : Poll) → IsWaiting p → p ≢ no_poll
  waits p h e = subst IsWaiting e h

  polled-Phase :
      (status : PollingStatus) (s : Connecting N) → s.posted_codes ≡ [] → Phase (polled pq status s)
  unfolding polled
  polled-Phase polling_ok s c = done-Phase ErrorCode.success s c
  polled-Phase polling_writing s c = waiting c (waits write_poll tt)
  polled-Phase polling_reading s c = waiting c (waits read_poll tt)
  polled-Phase polling_failed s c = done-Phase (ErrorCode.error Code.pq_connect_poll_failed) s c
  polled-Phase polling_active s c = done-Phase (ErrorCode.error Code.pq_connect_poll_failed) s c

  resume-Phase : (ec : ErrorCode) (s : Connecting N) → s.posted_codes ≡ [] → Phase (resume pq ec s)
  unfolding resume
  resume-Phase ec s c =
      let connect = pq.pq_connect_poll s.native in
      elim (Bool-cases (is_error ec)) [
        | inl e ↦ rw e (done-Phase ec _ c)
        | inr e ↦ rw e (polled-Phase connect.0 (record s { native = connect.1 }) c)
      ]

  Reachable-Phase : (s₀ s : Connecting N) → Reachable s₀ s → Phase s₀ → Phase s
  Reachable-Phase s₀ _ start h = h
  Reachable-Phase s₀ _ (step s ec r w) h = elim (Reachable-Phase s₀ s r h) [
    | waiting c p ↦ resume-Phase ec s c
    | completed ec' c p ↦ absurd (w p)
  ]

  -- The codes of a connection are not touched by `assign_socket`.
  pub assign_socket-codes :
      (s : Connecting N) → (assign_socket pq s).1.posted_codes ≡ s.posted_codes
  unfolding assign_socket
  assign_socket-codes s = elim (Option-cases (pq.pq_socket s.native)) [
    | inl e ↦ rw (assign_socket, e) refl
    | inr e ↦ elim (Option-cases (pq.dup e.0)) [
      | inl k ↦ rw (assign_socket, e.1, k) refl
      | inr k ↦ elim (Bool-cases (is_error (pq.assign k.0))) [
        | inl b ↦ rw (assign_socket, e.1, k.1, b) refl
        | inr b ↦ rw (assign_socket, e.1, k.1, b) refl
      ]
    ]
  ]

  started-Phase : (s : Connecting N) → s.posted_codes ≡ [] → Phase (started pq s)
  unfolding started
  started-Phase s c =
      let codes = assign_socket-codes s ∙ c in
      elim (Bool-cases (pq.pq_status_bad s.native)) [
        | inl e ↦ rw e (done-Phase (ErrorCode.error Code.pq_connection_status_bad) s c)
        | inr e ↦ elim (Bool-cases (is_error ((assign_socket pq s).0))) [
          | inl k ↦ rw (e, k) (done-Phase ((assign_socket pq s).0) ((assign_socket pq s).1) codes)
          | inr k ↦ rw (e, k) (waiting codes (waits write_poll tt))
        ]
      ]

  perform-Phase :
      (conninfo : Bytes) (s : Connecting N) → s.posted_codes ≡ [] → Phase (perform pq conninfo s)
  unfolding perform
  perform-Phase conninfo s c = elim (Option-cases (pq.pq_connect_start conninfo)) [
    | inl e ↦ rw (perform, e) (done-Phase (ErrorCode.error Code.pq_connection_start_failed) s c)
    | inr e ↦ rw (perform, e.1) (started-Phase (record s { native = e.0 }) c)
  ]

  -- In every state that connecting reaches, whatever libpq and the polls give, either the handler has
  -- been posted exactly once and no poll is pending, or it has not been posted and a poll is pending.
  pub perform-Reachable :
      (conninfo : Bytes) (s s' : Connecting N)
      → s.posted_codes ≡ []
      → Reachable (perform pq conninfo s) s'
      → Phase s'
  perform-Reachable conninfo s s' c r =
      Reachable-Phase (perform pq conninfo s) s' r (perform-Phase conninfo s c)
