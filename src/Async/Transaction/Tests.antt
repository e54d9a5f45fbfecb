-- ===== src/Async/Transaction/Tests.antt =====
-- A transaction that is copied, gives its connection away, and is destroyed.
use ozo.Prelude.{ℕ, ◌<◌, ◌≡◌, refl, arith, true}
use ozo.Io.Types.{is_some}
use ozo.Async.Transaction.{Shared, make_transaction, copy, destroy, take_connection}
use ozo.Async.Transaction.Ownership.{
  Fate, start, copied, destroyed, took, make_transaction-Reachable,
}

abbrev first : Shared ℕ
first = make_transaction 5

abbrev second : Shared ℕ
second = copy first

abbrev third : Shared ℕ
third = take_connection second

first_owned : 0 < first.use_count
unfolding make_transaction
first_owned = omega arith

second_owned : 0 < second.use_count
unfolding make_transaction copy
second_owned = omega arith

second_held : is_some second.connection ≡ true
unfolding make_transaction copy is_some
second_held = refl

third_owned : 0 < third.use_count
unfolding make_transaction copy take_connection
third_owned = omega arith

make_transaction-Reachable_example : Fate (destroy third)
make_transaction-Reachable_example = make_transaction-Reachable 5 (destroy third) (
    destroyed third (took second (copied first start first_owned) second_owned second_held)
      third_owned)
