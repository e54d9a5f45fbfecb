-- ===== src/Connections/Rebind.antt =====
-- What is done to a connection through the objects that wrap it.
use mathlib.Core.Option
use ozo.Prelude.{ℕ, ◌≡◌, refl, ap, ◌∙◌, arith, some, Bool-cases, inl, inr, ◌⊎◌, true, ◌==◌, ==_iff}
use ozo.Errors.Codes.{ErrorCode, is_error}
use ozo.Connections.{
  ConnectionApi, ConnectionImpl, Object, plain, null, pointer, pooled, transaction, empty_pooled,
  empty_transaction, unwrap_connection, modify, rebind_connection, rebind_io_context,
}

module _ {N : Type 0} where
  -- The object after `f` is done to the connection behind `o`, which is `c`.
  abbrev Modified : (ConnectionImpl N → ConnectionImpl N) → Object N → ConnectionImpl N → Type 0
  Modified f o c = (p : Object N) × (modify f o ≡ some p) × (unwrap_connection p ≡ some (f c))

  pub modify-Modified :
      (f : ConnectionImpl N → ConnectionImpl N) (o : Object N) (c : ConnectionImpl N)
      → unwrap_connection o ≡ some c
      → Modified f o c
  unfolding modify unwrap_connection
  modify-Modified f (plain d) c e = (plain (f d), refl, ap (Option.map f) e)
  modify-Modified f null c e = ground (arith, e)
  modify-Modified f empty_pooled c e = ground (arith, e)
  modify-Modified f empty_transaction c e = ground (arith, e)
  modify-Modified f (pointer o) c e =
      let h = modify-Modified f o c e in (pointer h.0, rw h.1 refl, h.2)
  modify-Modified f (pooled o) c e =
      let h = modify-Modified f o c e in (pooled h.0, rw h.1 refl, h.2)
  modify-Modified f (transaction o) c e =
      let h = modify-Modified f o c e in (transaction h.0, rw h.1 refl, h.2)

-- The connection `d` is `c`, bound to the context at `io` with the same descriptor.
abbrev pub IsBound : {N : Type 0} → ℕ → ConnectionImpl N → ConnectionImpl N → Type 0
IsBound io c d =
    (d.socket.socket_io ≡ io)
    × (d.timer.timer_io ≡ io)
    × (d.socket.native_handle ≡ c.socket.native_handle)
    × (d.handle ≡ c.handle)
    × (d.oid_map ≡ c.oid_map)
    × (d.error_context ≡ c.error_context)

abbrev pub Rebound : {N : Type 0} → ℕ → ConnectionImpl N → ErrorCode → ConnectionImpl N → Type 0
Rebound io c ec d = ((is_error ec ≡ true) × (d ≡ c)) ⊎ ((ec ≡ ErrorCode.success) × IsBound io c d)

module _ {N : Type 0} (api : ConnectionApi N) where
  rebind_connection-Rebound :
      (io : ℕ) (c : ConnectionImpl N)
      → c.timer.timer_io ≡ c.socket.socket_io
      → Rebound io c ((rebind_connection api io c).0) ((rebind_connection api io c).1)
  unfolding rebind_connection
  rebind_connection-Rebound io c h = elim (Bool-cases (c.socket.socket_io == io)) [
    | inl e ↦
        let same : c.socket.socket_io ≡ io = (==_iff (c.socket.socket_io) io).0 e in
        rw (rebind_connection, e) (inr (refl, (same, h ∙ same, refl, refl, refl, refl)))
    | inr e ↦ elim (Bool-cases (is_error (api.assign io c.socket.native_handle))) [
      | inl f ↦ rw (rebind_connection, e, f) (inl (f, refl))
      | inr f ↦ rw (rebind_connection, e, f) (inr (refl, (refl, refl, refl, refl, refl, refl)))
    ]
  ]

  -- Through any wrapper that leads to a connection with its socket and its timer in one context,
  -- rebinding gives an error and leaves the connection as it was, or gives no error and leaves it
  -- with its socket and its timer in the new context, and with the same descriptor, handle, oids
  -- and error context.
  pub rebind_io_context-Rebound :
      (io : ℕ) (o : Object N) (c : ConnectionImpl N)
      → unwrap_connection o ≡ some c
      → c.timer.timer_io ≡ c.socket.socket_io
      → (ec : ErrorCode) × (p : Object N) × (d : ConnectionImpl N) × (rebind_io_context api io o
          ≡ some (ec, p))
        × (unwrap_connection p ≡ some d)
        × Rebound io c ec d
  unfolding rebind_io_context
  rebind_io_context-Rebound io o c e h =
      let bound = rebind_connection api io c in
      let changed = modify-Modified (λ _. bound.1) o c e in
      (
        bound.0,
        changed.0,
        bound.1,
        rw (rebind_io_context, e, changed.1) refl,
        changed.2,
        rebind_connection-Rebound io c h,
      )
