-- ===== src/Pool/Begin.antt =====
-- Transactions on the connections of a pool.
use mathlib.Core.Option
use ozo.Prelude.{ℕ, ◌≡◌, refl, Option, none, some, Bool-cases, inl, inr, ◌⊎◌, true, false}
use ozo.Errors.Codes.{ErrorCode, is_error}
use ozo.Connections.{ConnectionApi, Object, null, pointer, empty_pooled, unwrap_connection}
use ozo.Connections.Execute.{Query}
use ozo.Connections.Transactions.{async_start_transaction, async_start_transaction_undefined}
use ozo.Pool.{acquire, received, answered, connected}

module _ {N : Type 0} (api : ConnectionApi N) (io : ℕ) where
  -- The resource pool fails (its queue is full, or the time is up), or its handle is empty and
  -- connecting fails.
  abbrev pub Fails : ErrorCode → Option (Object N) → ErrorCode × Object N → Type 0
  Fails ec content answer = (is_error ec ≡ true) ⊎ ((content ≡ none) × (is_error answer.0 ≡ true))

  refused :
      (query : Query N) (ec : ErrorCode) (content : Option (Object N))
      (answer : ErrorCode × Object N)
      → is_error ec ≡ true
      → Option.bind (acquire api io ec content answer) (async_start_transaction query) ≡ none
  unfolding acquire received answered Option.bind unwrap_connection
  refused query ec none answer f = rw f (async_start_transaction_undefined query ec null f refl)
  refused query ec (some o) answer f = rw f (async_start_transaction_undefined query ec null f refl)

  unconnected :
      (query : Query N) (ec : ErrorCode) (answer : ErrorCode × Object N)
      → is_error ec ≡ false
      → is_error answer.0 ≡ true
      → Option.bind (acquire api io ec none answer) (async_start_transaction query) ≡ none
  unfolding acquire received answered connected Option.bind unwrap_connection
  unconnected query ec answer g f =
      rw (g, f) (async_start_transaction_undefined query answer.0 (pointer empty_pooled) f refl)

  -- To begin a transaction through a pool has no defined behaviour where the pool fails to give a
  -- connection: the operation asks the missing connection for its context before it passes the
  -- error on.
  pub begin_undefined :
      (query : Query N) (ec : ErrorCode) (content : Option (Object N))
      (answer : ErrorCode × Object N)
      → Fails ec content answer
      → Option.bind (acquire api io ec content answer) (async_start_transaction query) ≡ none
  begin_undefined query ec content answer (inl f) = refused query ec content answer f
  begin_undefined query ec content answer (inr f) = elim (Bool-cases (is_error ec)) [
    | inl g ↦ refused query ec content answer g
    | inr g ↦ rw f.0 (unconnected query ec answer g f.1)
  ]
