-- ===== src/Pool/Oids.antt =====
-- `request_oid_map_handler` of include/ozo/impl/async_connect.h, on the object that connecting ends
-- with.
use mathlib.Core.Option
use ozo.Prelude.{
  ℕ, ◌≡◌, refl, ap, ◌∙◌, inl, inr, ◌⊎◌, List, [], Bytes, Option, some, true, false, Bool-cases,
  ◌||◌,
}
use ozo.Errors.Codes.{ErrorCode, is_error}
use ozo.Io.OidMap.{empty}
use ozo.Async.RequestOids
use ozo.Async.RequestOids.{Failure, Connection, oids_received, handled, request_oids}
use ozo.Connections.{
  ConnectionApi, ConnectionImpl, Object, unwrap_connection, connection_status_bad, modify,
  async_get_connection, reset_error_context, set_error_context,
}
use ozo.Connections.Rebind.{modify-Modified}
use ozo.Connections.Execute.{Query, ran_by, requested, executed, left_by, executed-RunsTo}
use ozo.Pool.Acquire.{Answered}

module _ {N : Type 0} where
  -- `request_oid_map_op::operator ()` on the object, where the request has answered with `res`.
  unfoldable pub oids_answered :
      (Failure → Bytes) → List ℕ → ErrorCode × Object N → Option (ErrorCode × Object N)
  oids_answered what res answer = Option.bind (unwrap_connection answer.1) (λ c.
      let conn : Connection = record { oid_map = c.oid_map; error_context = c.error_context } in
      let received = oids_received what answer.0 res conn in
      Option.map (λ p. (received.0, p))
        (modify
          (λ d. record d { oid_map = received.1.oid_map; error_context = received.1.error_context })
          answer.1))

  -- `request_oid_map`: the oids are requested by `ask` on the connection.
  unfoldable pub oids_requested :
      (Failure → Bytes) → Query N → List ℕ → Object N → Option (ErrorCode × Object N)
  oids_requested what ask res o =
      Option.bind (Option.bind (async_get_connection o) (executed ask)) (oids_answered what res)

  unfoldable pub handle_next :
      (Failure → Bytes)
      → Query N
      → List ℕ
      → Object N
      → RequestOids.Next
      → Option (ErrorCode × Object N)
  handle_next what ask res o (handled ec _) = some (ec, o)
  handle_next what ask res o (request_oids _) = oids_requested what ask res o

  -- `request_oid_map_handler::operator ()`: what the handler of `connection_info` is called
  -- with, where connecting has ended with a code and an object.
  unfoldable pub connection_answered :
      (Failure → Bytes) → Query N → List ℕ → ErrorCode × Object N → Option (ErrorCode × Object N)
  connection_answered what ask res answer = Option.bind (unwrap_connection answer.1) (λ c.
      let conn : Connection = record { oid_map = c.oid_map; error_context = c.error_context } in
      handle_next what ask res answer.1 (RequestOids.connected answer.0 conn))

  -- A connection as `request_oid_map_handler` sees it.
  abbrev seen : ConnectionImpl N → Connection
  seen c = record { oid_map = c.oid_map; error_context = c.error_context }

  -- The handler is called at once, or when the oids have been requested.
  at_once :
      (what : Failure → Bytes) (ask : Query N) (res : List ℕ) (ec : ErrorCode) (o : Object N)
      (c : ConnectionImpl N)
      → unwrap_connection o ≡ some c
      → (is_error ec || empty c.oid_map) ≡ true
      → connection_answered what ask res (ec, o) ≡ some (ec, o)
  unfolding connection_answered Option.bind handle_next RequestOids.connected
  at_once what ask res ec o c e f =
      let next : RequestOids.connected ec (seen c) ≡ handled ec (seen c) =
        rw (RequestOids.connected, f) refl in
      let known : connection_answered what ask res (ec, o)
          ≡ handle_next what ask res o (RequestOids.connected ec (seen c)) =
        rw e refl in
      known ∙ ap (handle_next what ask res o) next

  when_requested :
      (what : Failure → Bytes) (ask : Query N) (res : List ℕ) (ec : ErrorCode) (o : Object N)
      (c : ConnectionImpl N)
      → unwrap_connection o ≡ some c
      → (is_error ec || empty c.oid_map) ≡ false
      → connection_answered what ask res (ec, o) ≡ oids_requested what ask res o
  unfolding connection_answered Option.bind handle_next RequestOids.connected
  when_requested what ask res ec o c e f =
      let next : RequestOids.connected ec (seen c) ≡ request_oids (seen c) =
        rw (RequestOids.connected, f) refl in
      let known : connection_answered what ask res (ec, o)
          ≡ handle_next what ask res o (RequestOids.connected ec (seen c)) =
        rw e refl in
      known ∙ ap (handle_next what ask res o) next

module _ {N : Type 0} (api : ConnectionApi N) where
  -- A request that ends without an error on a connection whose status is not bad does not make it
  -- bad.
  abbrev pub KeepsStatus : Query N → Type 0
  KeepsStatus ask =
      (handle : Option N) (context : Bytes)
      → connection_status_bad api handle ≡ false
      → is_error ((ask handle context).code) ≡ false
      → connection_status_bad api ((ask handle context).handle) ≡ false

module _ {N : Type 0} (api : ConnectionApi N) (io : ℕ) where
  -- The answer with which the handler of `connection_info` is called, where connecting has ended with
  -- `answer`.
  abbrev pub Ready : (Failure → Bytes) → Query N → List ℕ → ErrorCode × Object N → Type 0
  Ready what ask res answer =
      (a : ErrorCode × Object N) × (connection_answered what ask res answer ≡ some a)
      × Answered api io a

  oids_requested-Answered :
      (what : Failure → Bytes) (ask : Query N) (res : List ℕ) (o : Object N) (c : ConnectionImpl N)
      → unwrap_connection o ≡ some c
      → c.socket.socket_io ≡ io
      → connection_status_bad api c.handle ≡ false
      → KeepsStatus api ask
      → (a : ErrorCode × Object N) × (oids_requested what ask res o ≡ some a) × Answered api io a
  unfolding oids_requested oids_answered async_get_connection reset_error_context set_error_context
      Option.bind ran_by requested oids_received
  oids_requested-Answered what ask res o c e here good keeps =
      let reset = modify-Modified (λ d. record d { error_context = [] }) o c e in
      let start : ConnectionImpl N = record c { error_context = [] } in
      let ran = executed-RunsTo ask reset.0 start reset.2 in
      let left = left_by ask start in
      let received =
        oids_received what (ran_by ask start).code res
          (record { oid_map = left.oid_map; error_context = left.error_context }) in
      let set =
        modify-Modified
          (λ d. record d { oid_map = received.1.oid_map; error_context = received.1.error_context })
          ran.0 left ran.2 in
      (
        (received.0, set.0),
        rw reset.1 (rw ran.1 (rw ran.2 (rw set.1 refl))),
        elim (Bool-cases (is_error ((ran_by ask start).code))) [
          | inl f ↦ inl (rw (oids_received, f) f)
          | inr f ↦ inr (_, set.2, here, keeps c.handle [] good f)
        ],
      )

  pub connection_answered-Answered :
      (what : Failure → Bytes) (ask : Query N) (res : List ℕ) (ec : ErrorCode) (o : Object N)
      (c : ConnectionImpl N)
      → unwrap_connection o ≡ some c
      → c.socket.socket_io ≡ io
      → (is_error ec ≡ true) ⊎ (connection_status_bad api c.handle ≡ false)
      → KeepsStatus api ask
      → Ready what ask res (ec, o)
  connection_answered-Answered what ask res ec o c e here (inl f) keeps =
      ((ec, o), at_once what ask res ec o c e (rw f refl), inl f)
  connection_answered-Answered what ask res ec o c e here (inr good) keeps =
      elim (Bool-cases (is_error ec || empty c.oid_map)) [
        | inl f ↦ ((ec, o), at_once what ask res ec o c e f, inr (c, e, here, good))
        | inr f ↦
            let asked = oids_requested-Answered what ask res o c e here good keeps in
            (asked.0, when_requested what ask res ec o c e f ∙ asked.1, asked.2)
      ]
