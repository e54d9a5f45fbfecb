-- ===== src/Pool/Source.antt =====
-- A pool over include/ozo/connection_info.h: the answers of connecting, through
-- `request_oid_map_handler` of include/ozo/impl/async_connect.h.
use ozo.Prelude.{
  ℕ, ◌≡◌, refl, ap, ◌∙◌, inl, inr, ◌⊎◌, List, [], ◌∷◌, Bytes, Option, none, some, true, false, All,
}
use ozo.Errors.Codes.{ErrorCode, is_error}
use ozo.Io.OidMap.{OidMap}
use ozo.Async.Connect.{Connector, Connecting, perform}
use ozo.Async.Connect.Completion.{Reachable}
use ozo.Async.Connect.Success.{IsPolling, Sound, Reachable-IsSound}
use ozo.Async.RequestOids.{Failure}
use ozo.Connections.{
  ConnectionApi, ConnectionImpl, Object, plain, pointer, unwrap_connection, connection_status_bad,
}
use ozo.Connections.Execute.{Query}
use ozo.Pool.{acquire}
use ozo.Pool.Oids.{connection_answered, KeepsStatus, Ready, connection_answered-Answered}
use ozo.Pool.Acquire.{IsStored, IsReady, acquire-Answered}

-- `connection_impl(io, statistics)`
unfoldable pub make_connection : {N : Type 0} → ℕ → OidMap → ConnectionImpl N
make_connection io oids = record {
  handle = none;
  socket = record { socket_io = io; native_handle = none };
  oid_map = oids;
  error_context = [];
  timer = record { timer_io = io; waiting = false };
}

-- The object that `connection_info` makes for a context, as connecting leaves it.
unfoldable pub connection_of : {N : Type 0} → ℕ → OidMap → Option ℕ → Connecting N → Object N
connection_of io oids fd s =
    let made = make_connection io oids in
    pointer (
      plain (record made {
        handle = some s.native;
        socket = record (made.socket) { native_handle = fd };
        error_context = s.error_context;
      }))

module _ {N : Type 0} (pq : Connector N) (api : ConnectionApi N) (io : ℕ) where
  connection_of-Ready :
      (oids : OidMap) (fd : Option ℕ) (s : Connecting N) (ec : ErrorCode) (what : Failure → Bytes)
      (ask : Query N) (res : List ℕ)
      → api.pq_status_bad ≡ pq.pq_status_bad
      → Sound pq s.native ec
      → KeepsStatus api ask
      → Ready api io what ask res (ec, connection_of io oids fd s)
  unfolding connection_of make_connection unwrap_connection connection_status_bad
  connection_of-Ready oids fd s ec what ask res same sound keeps =
      connection_answered-Answered api io what ask res ec (connection_of io oids fd s) _ refl refl
        (elim sound [ inl e ↦ inl e | inr good ↦ inr (ap (λ f. f s.native) same ∙ good) ]) keeps

  -- Where the status of a connection is not bad once PQconnectPoll has returned PGRES_POLLING_OK,
  -- and a request for the oids that ends without an error does not make it bad, a pool over
  -- connection_info, whose handle is empty or leads to a connection with its socket and its timer
  -- in one context, calls its handler with an error, or with an object that leads to a connection
  -- in the context that was asked for and whose status is not bad; if it connects, this holds for
  -- any order of polls, with any codes, for any map of custom types, and whatever the database
  -- answers about them.
  pub acquire-IsReady :
      (conninfo : Bytes) (s s' : Connecting N) (code : ErrorCode) (oids : OidMap) (fd : Option ℕ)
      (what : Failure → Bytes) (ask : Query N) (res : List ℕ) (ec : ErrorCode)
      (content : Option (Object N))
      → api.pq_status_bad ≡ pq.pq_status_bad
      → IsPolling pq
      → KeepsStatus api ask
      → s.posted_codes ≡ []
      → Reachable pq (perform pq conninfo s) s'
      → s'.posted_codes ≡ code ∷ []
      → IsStored api io content
      → (a r : ErrorCode × Object N) × (connection_answered what ask res
            (code, connection_of io oids fd s')
          ≡ some a)
        × (acquire api io ec content a ≡ some r)
        × ((is_error r.0 ≡ true) ⊎ IsReady api io r.1)
  acquire-IsReady conninfo s s' code oids fd what ask res ec content same p keeps c r d stored =
      let sound : All (Sound pq s'.native) (code ∷ []) =
        rw d at (Reachable-IsSound pq conninfo s s' p c r) in
      let answer = connection_of-Ready oids fd s' code what ask res same sound.0 keeps in
      let got = acquire-Answered api io ec content answer.0 stored answer.2 in
      (answer.0, got.0, answer.1, got.1, got.2)
