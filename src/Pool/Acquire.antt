-- ===== src/Pool/Acquire.antt =====
-- What the handler of a pool's connection gets.
use mathlib.Core.Option
use ozo.Prelude.{
  ℕ, ◌≡◌, refl, ap, ◌∙◌, arith, Option, none, some, Bool-cases, inl, inr, ◌⊎◌, true, false, not,
  Bool,
}
use ozo.Errors.Codes.{ErrorCode, is_error}
use ozo.Connections.{
  ConnectionApi, ConnectionImpl, Object, null, pointer, pooled, empty_pooled, unwrap_connection,
  connection_bad, connection_good, connection_status_bad, get_native_handle,
}
use ozo.Connections.Rebind.{Rebound, rebind_io_context-Rebound}
use ozo.Pool.{Next, handled, connecting, received, reuse, answered, connected, acquire}

module _ {N : Type 0} (api : ConnectionApi N) (io : ℕ) where
  -- An object that leads to a connection in the context at `io` whose status is not bad.
  abbrev pub IsReady : Object N → Type 0
  IsReady o =
      (c : ConnectionImpl N) × (unwrap_connection o ≡ some c)
      × (c.socket.socket_io ≡ io)
      × (connection_status_bad api c.handle ≡ false)

  abbrev pub Answered : ErrorCode × Object N → Type 0
  Answered answer = (is_error answer.0 ≡ true) ⊎ IsReady answer.1

  -- What the resource pool hands out is empty, or leads to a connection with its socket and its timer
  -- in one context.
  abbrev pub IsStored : Option (Object N) → Type 0
  IsStored none = Unit {0}
  IsStored (some o) =
      (c : ConnectionImpl N) × (unwrap_connection o ≡ some c)
      × (c.timer.timer_io ≡ c.socket.socket_io)

  connection_good-status :
      (o : Object N) (c : ConnectionImpl N)
      → unwrap_connection o ≡ some c
      → connection_good api (pointer (pooled o)) ≡ some (not (connection_status_bad api c.handle))
  unfolding connection_good connection_bad get_native_handle unwrap_connection
  connection_good-status o c e = rw e refl

  connected-Answered :
      (conn : Object N) (answer : ErrorCode × Object N)
      → Answered answer
      → Answered (connected conn answer.0 answer.1)
  unfolding connected unwrap_connection
  connected-Answered conn answer (inl f) = rw f (inl f)
  connected-Answered conn answer (inr ready) = elim (Bool-cases (is_error answer.0)) [
    | inl f ↦ rw f (inl f)
    | inr f ↦ rw f (inr ready)
  ]

  Rebound-Answered :
      (c : ConnectionImpl N) (ec : ErrorCode) (p : Object N) (d : ConnectionImpl N)
      → unwrap_connection p ≡ some d
      → not (connection_status_bad api c.handle) ≡ true
      → Rebound io c ec d
      → Answered (ec, p)
  Rebound-Answered c ec p d e g (inl f) = inl f.0
  Rebound-Answered c ec p d e g (inr b) =
      let good : connection_status_bad api c.handle ≡ false = ground (arith, g) in
      inr (d, e, b.1.0, ap (connection_status_bad api) b.1.3 ∙ good)

  abbrev NextAnswered : ErrorCode × Object N → Next N → Type 0
  NextAnswered answer next = Answered answer → Answered (answered api io answer next)

  reuse-Answered :
      (o : Object N) (c : ConnectionImpl N) (good : Bool) (answer : ErrorCode × Object N)
      → unwrap_connection o ≡ some c
      → c.timer.timer_io ≡ c.socket.socket_io
      → not (connection_status_bad api c.handle) ≡ good
      → (next : Next N) × (reuse api io (pooled o) good ≡ some next) × NextAnswered answer next
  unfolding reuse answered unwrap_connection
  reuse-Answered o c true answer e h g =
      let bound = rebind_io_context-Rebound api io (pointer (pooled o)) c e h in
      (
        handled bound.0 bound.1,
        rw bound.3 refl,
        λ a. Rebound-Answered c bound.0 bound.1 bound.2 bound.4 g bound.5,
      )
  reuse-Answered o c false answer e h g =
      (connecting (pooled o), refl, connected-Answered (pooled o) answer)

  abbrev ReceivedAnswers : ErrorCode → Option (Object N) → ErrorCode × Object N → Type 0
  ReceivedAnswers ec content answer =
      (next : Next N) × (received api io ec content ≡ some next) × NextAnswered answer next

  received-Answers :
      (ec : ErrorCode) (content : Option (Object N)) (answer : ErrorCode × Object N)
      → IsStored content
      → ReceivedAnswers ec content answer
  unfolding received answered Option.bind
  received-Answers ec none answer h = elim (Bool-cases (is_error ec)) [
    | inl f ↦ (handled ec null, rw f refl, λ a. inl f)
    | inr f ↦ (connecting empty_pooled, rw f refl, connected-Answered empty_pooled answer)
  ]
  received-Answers ec (some o) answer h = elim (Bool-cases (is_error ec)) [
    | inl f ↦ (handled ec null, rw f refl, λ a. inl f)
    | inr f ↦
        let good = not (connection_status_bad api (h.0).handle) in
        let next = reuse-Answered o h.0 good answer h.1 h.2 refl in
        (next.0, rw (f, connection_good-status o h.0 h.1) next.1, next.2)
  ]

  -- Where the provider answers with an error or with a connection in the context that was asked
  -- for and whose status is not bad, a pool whose handle is empty or leads to a connection calls
  -- the handler, with an error or with such a connection, whether it reuses its own or connects;
  -- it never works on an object that leads to no connection.
  pub acquire-Answered :
      (ec : ErrorCode) (content : Option (Object N)) (answer : ErrorCode × Object N)
      → IsStored content
      → Answered answer
      → (r : ErrorCode × Object N) × (acquire api io ec content answer ≡ some r) × Answered r
  unfolding acquire
  acquire-Answered ec content answer h a =
      let next = received-Answers ec content answer h in
      (answered api io answer next.0, rw next.1 refl, next.2 a)
