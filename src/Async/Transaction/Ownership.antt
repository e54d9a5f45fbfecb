-- ===== src/Async/Transaction/Ownership.antt =====
-- What becomes of the connection of a transaction.
use ozo.Prelude.{Bool-cases, inl, inr, ◌+◌, ◌<◌, ◌≡◌, refl, arith, true, false}
use ozo.Io.Types.{is_some}
use ozo.Async.Transaction.{Shared, make_transaction, copy, destroy, take_connection}

module _ {T : Type 0} where
  -- An object that owns the shared one is copied or destroyed, or its connection is taken.
  pub data Reachable (s₀ : Shared T) : Shared T → Type 0 where
    start : Reachable s₀ s₀
    copied : (s : Shared T) → Reachable s₀ s → 0 < s.use_count → Reachable s₀ (copy s)
    destroyed : (s : Shared T) → Reachable s₀ s → 0 < s.use_count → Reachable s₀ (destroy s)
    took :
        (s : Shared T)
        → Reachable s₀ s
        → 0 < s.use_count
        → is_some s.connection ≡ true
        → Reachable s₀ (take_connection s)

  -- Held, taken, or closed.
  abbrev pub Fate : Shared T → Type 0
  Fate s =
      ((is_some s.connection ≡ true) → s.taken ≡ 0)
      × ((is_some s.connection ≡ false) → s.taken ≡ 1)
      × (0 < s.use_count → s.closed ≡ 0)
      × (s.use_count ≡ 0 → s.taken + s.closed ≡ 1)

  copy-Fate : (s : Shared T) → 0 < s.use_count → Fate s → Fate (copy s)
  unfolding copy
  copy-Fate s p h = (h.0, h.1, λ q. h.2 p, λ z. absurd (omega (arith, z)))

  destroy-Fate : (s : Shared T) → 0 < s.use_count → Fate s → Fate (destroy s)
  unfolding destroy
  destroy-Fate s p h = (
    h.0,
    h.1,
    λ q. ground (arith, q, h.2 p),
    λ z. elim (Bool-cases (is_some s.connection)) [
      | inl e ↦ rw e (ground (arith, z, p, h.0 e, h.2 p))
      | inr e ↦ rw e (ground (arith, z, p, h.1 e, h.2 p))
    ],
  )

  take-Fate :
      (s : Shared T)
      → 0 < s.use_count
      → is_some s.connection ≡ true
      → Fate s
      → Fate (take_connection s)
  unfolding take_connection is_some
  take-Fate s p c h = (
    λ e. ground (arith, e),
    λ e. omega (arith, h.0 c),
    λ q. h.2 p,
    λ z. omega (arith, h.0 c, h.2 p),
  )

  make_transaction-Fate : (connection : T) → Fate (make_transaction connection)
  unfolding make_transaction is_some
  make_transaction-Fate connection =
      (λ e. refl, λ e. ground (arith, e), λ q. refl, λ z. absurd (omega (arith, z)))

  -- However the objects of a transaction are copied, destroyed and asked for the connection, it
  -- is not closed while one of them is left, it is taken at most once, and when the last one is
  -- gone it has either been taken once or been closed once, and never both.
  pub make_transaction-Reachable :
      (connection : T) (s : Shared T) → Reachable (make_transaction connection) s → Fate s
  make_transaction-Reachable connection _ start = make_transaction-Fate connection
  make_transaction-Reachable connection _ (copied s r p) =
      copy-Fate s p (make_transaction-Reachable connection s r)
  make_transaction-Reachable connection _ (destroyed s r p) =
      destroy-Fate s p (make_transaction-Reachable connection s r)
  make_transaction-Reachable connection _ (took s r p c) =
      take-Fate s p c (make_transaction-Reachable connection s r)
