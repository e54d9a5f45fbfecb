-- ===== src/Pool.antt =====
-- include/ozo/impl/connection_pool.h: what a pool of connections does around the resource pool, which
-- is another library's. The resource pool calls `received` with an error or a handle, which is empty
-- or holds a connection object, and takes back what the destructor of `pooled_connection` leaves.
pub mod Acquire
pub mod Oids
pub mod Source
pub mod Return
pub mod Begin
pub mod Provider
mod Tests
use mathlib.Core.Option
use ozo.Prelude.{ℕ, Bool, true, false, Option, none, some, if◌then◌else◌}
use ozo.Errors.Codes.{ErrorCode, is_error}
use ozo.Connections.{
  ConnectionApi, Object, null, pointer, pooled, empty_pooled, transaction, empty_transaction, plain,
  connection_bad, connection_good, rebind_io_context,
}

-- What the wrapper does next: it calls the handler with a connection object, or asks the provider for
-- a connection for the `pooled_connection`.
pub data Next (N : Type 0) : Type 0 where
  handled : ErrorCode → Object N → Next N
  connecting : Object N → Next N

-- What becomes of a handle: the resource pool drops its content, or stores it.
pub data Fate (N : Type 0) : Type 0 where
  wasted : Fate N
  recycled : Option (Object N) → Fate N

module _ {N : Type 0} where
  -- `wrapper::operator ()`: the object that the handler is called with.
  unfoldable pub connected : Object N → ErrorCode → Object N → ErrorCode × Object N
  connected conn ec o = if is_error ec then (ec, pointer conn) else (ec, pointer (pooled o))

module _ {N : Type 0} (api : ConnectionApi N) (io : ℕ) where
  -- A handle that is not empty: reuse or connect, by `connection_good`.
  unfoldable pub reuse : Object N → Bool → Option (Next N)
  reuse conn true =
      Option.map (λ bound. handled bound.0 bound.1) (rebind_io_context api io (pointer conn))
  reuse conn false = some (connecting conn)

  -- `pooled_connection_wrapper::operator ()`
  unfoldable pub received : ErrorCode → Option (Object N) → Option (Next N)
  received ec none = if is_error ec then some (handled ec null) else some (connecting empty_pooled)
  received ec (some o) =
      let conn = pooled o in
      if is_error ec
      then some (handled ec null)
      else Option.bind (connection_good api (pointer conn)) (reuse conn)

  -- What the handler is called with in the end, where the provider answers with a code and an object.
  unfoldable pub answered : ErrorCode × Object N → Next N → ErrorCode × Object N
  answered answer (handled ec o) = (ec, o)
  answered answer (connecting conn) = connected conn answer.0 answer.1

  unfoldable pub acquire :
      ErrorCode → Option (Object N) → ErrorCode × Object N → Option (ErrorCode × Object N)
  acquire ec content answer = Option.map (answered answer) (received ec content)

module _ {N : Type 0} (api : ConnectionApi N) where
  unfoldable pub returned : Object N → Bool → Fate N
  returned o true = wasted
  returned o false = recycled (some o)

  -- `~pooled_connection()`
  unfoldable pub destroy : Option (Object N) → Option (Fate N)
  destroy none = some (recycled none)
  destroy (some o) = Option.map (returned o) (connection_bad api (pooled o))
