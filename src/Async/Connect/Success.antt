-- ===== src/Async/Connect/Success.antt =====
-- What a connection is that connecting succeeds with.
use ozo.Prelude.{
  ◌≡◌, refl, ◌∙◌, inl, inr, ◌⊎◌, [], Bytes, Bool-cases, Option-cases, All, true, false,
}
use ozo.Errors.Codes.{ErrorCode, Code, is_error, code_value}
use ozo.Async.Connect.{
  Connector, PollingStatus, polling_failed, polling_reading, polling_writing, polling_ok,
  polling_active, Connecting, done, assign_socket, started, perform, polled, resume,
}
use ozo.Async.Connect.Completion.{
  waiting, completed, Reachable, start, step, perform-Reachable, assign_socket-codes,
}

module _ {N : Type 0} (pq : Connector N) where
  -- The status of a connection is not bad once PQconnectPoll has returned PGRES_POLLING_OK.
  abbrev pub IsPolling : Type 0
  IsPolling =
      (n : N)
      → (pq.pq_connect_poll n).0 ≡ polling_ok
      → pq.pq_status_bad ((pq.pq_connect_poll n).1) ≡ false

  abbrev pub Sound : N → ErrorCode → Type 0
  Sound n ec = (is_error ec ≡ true) ⊎ (pq.pq_status_bad n ≡ false)

  abbrev pub IsSound : Connecting N → Type 0
  IsSound s = All (Sound s.native) s.posted_codes

  done-IsSound :
      (ec : ErrorCode) (s : Connecting N)
      → s.posted_codes ≡ []
      → Sound s.native ec
      → IsSound (done pq ec s)
  unfolding done
  done-IsSound ec s c h = rw c (h, tt)

  polled-IsSound :
      (status : PollingStatus) (s : Connecting N)
      → s.posted_codes ≡ []
      → (status ≡ polling_ok → pq.pq_status_bad s.native ≡ false)
      → IsSound (polled pq status s)
  unfolding polled is_error code_value
  polled-IsSound polling_ok s c h = done-IsSound ErrorCode.success s c (inr (h refl))
  polled-IsSound polling_writing s c h = rw c tt
  polled-IsSound polling_reading s c h = rw c tt
  polled-IsSound polling_failed s c h =
      done-IsSound (ErrorCode.error Code.pq_connect_poll_failed) s c (inl refl)
  polled-IsSound polling_active s c h =
      done-IsSound (ErrorCode.error Code.pq_connect_poll_failed) s c (inl refl)

  resume-IsSound :
      (ec : ErrorCode) (s : Connecting N)
      → IsPolling
      → s.posted_codes ≡ []
      → IsSound (resume pq ec s)
  unfolding resume
  resume-IsSound ec s p c =
      let connect = pq.pq_connect_poll s.native in
      elim (Bool-cases (is_error ec)) [
        | inl e ↦ rw e (done-IsSound ec _ c (inl e))
        | inr e ↦ rw e (polled-IsSound connect.0 (record s { native = connect.1 }) c (p s.native))
      ]

  started-IsSound : (s : Connecting N) → s.posted_codes ≡ [] → IsSound (started pq s)
  unfolding started is_error code_value
  started-IsSound s c =
      let codes = assign_socket-codes pq s ∙ c in
      elim (Bool-cases (pq.pq_status_bad s.native)) [
        | inl e ↦ rw e (done-IsSound (ErrorCode.error Code.pq_connection_status_bad) s c (inl refl))
        | inr e ↦ elim (Bool-cases (is_error ((assign_socket pq s).0))) [
          | inl k ↦
              rw (e, k)
                (done-IsSound ((assign_socket pq s).0) ((assign_socket pq s).1) codes (inl k))
          | inr k ↦ rw (e, k) (rw codes tt)
        ]
      ]

  perform-IsSound :
      (conninfo : Bytes) (s : Connecting N) → s.posted_codes ≡ [] → IsSound (perform pq conninfo s)
  unfolding perform is_error code_value
  perform-IsSound conninfo s c = elim (Option-cases (pq.pq_connect_start conninfo)) [
    | inl e ↦
        rw (perform, e)
          (done-IsSound (ErrorCode.error Code.pq_connection_start_failed) s c (inl refl))
    | inr e ↦ rw (perform, e.1) (started-IsSound (record s { native = e.0 }) c)
  ]

  -- In every state that connecting reaches, a code that the handler has been posted with is an
  -- error, or the status of the connection is not bad.
  pub Reachable-IsSound :
      (conninfo : Bytes) (s s' : Connecting N)
      → IsPolling
      → s.posted_codes ≡ []
      → Reachable pq (perform pq conninfo s) s'
      → IsSound s'
  Reachable-IsSound conninfo s _ p c start = perform-IsSound conninfo s c
  Reachable-IsSound conninfo s _ p c (step s' ec r w) =
      elim (perform-Reachable pq conninfo s s' c r) [
        | waiting none_posted q ↦ resume-IsSound ec s' p none_posted
        | completed ec' d q ↦ absurd (w q)
      ]
