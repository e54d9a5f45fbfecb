-- ===== src/Async/Transaction.antt =====
-- include/ozo/impl/transaction.h: the objects that share one `impl_type`, and its connection. The
-- class declares its destructor, so that a move of an object is a copy.
pub mod Ownership
mod Tests
use ozo.Prelude.{
  ℕ, suc, ◌+◌, ◌-◌, ◌≡◌, Bool, true, false, ◌&&◌, Option, none, some, ◌==◌, if◌then◌else◌,
}
use ozo.Io.Types.{is_some}

-- The shared object: how many transactions own it (`use_count`), and the connection that it holds;
-- and how often that connection has been closed, and been taken out.
pub record Shared (T : Type 0) : Type 0 where
  pub use_count : ℕ
  pub connection : Option T
  pub closed : ℕ
  pub taken : ℕ

module _ {T : Type 0} where
  -- `transaction(T connection)`
  unfoldable pub make_transaction : T → Shared T
  make_transaction connection = record {
    use_count = 1;
    connection = some connection;
    closed = 0;
    taken = 0;
  }

  unfoldable pub copy : Shared T → Shared T
  copy s = record s { use_count = s.use_count + 1 }

  -- `~transaction()`
  unfoldable pub destroy : Shared T → Shared T
  destroy s = record s {
    use_count = s.use_count - 1;
    closed = if (s.use_count == 1) && is_some s.connection then s.closed + 1 else s.closed;
  }

  -- `take_connection`, on a transaction whose connection is there
  unfoldable pub take_connection : Shared T → Shared T
  take_connection s = record s {
    use_count = s.use_count - 1;
    connection = none;
    taken = s.taken + 1;
  }
