-- ===== src/Connections/Transactions.antt =====
-- include/ozo/transaction.h, impl/async_start_transaction.h and impl/async_end_transaction.h, from a
-- provider's answer to the handler of `begin`, `commit` and `rollback`.
use mathlib.Core.Option
use ozo.Prelude.{Bytes, ◌≡◌, refl, Option, none, some, true, []}
use ozo.Prelude.Text.{codes}
use ozo.Errors.Codes.{ErrorCode, is_error}
use ozo.Connections.{
  ConnectionImpl, Object, transaction, unwrap_connection, get_io_context, get_socket,
  async_get_connection, reset_error_context, set_error_context, modify,
}
use ozo.Connections.Rebind.{modify-Modified}
use ozo.Connections.Execute.{
  Posted, Query, post_handler, ran_by, requested, executed, executed-RunsTo, executed-transaction,
  left_by,
}

module _ {N : Type 0} where
  -- `async_start_transaction_op::operator ()`: the context is taken before the transaction is made.
  unfoldable pub transaction_started : ErrorCode → Object N → Option (Posted N)
  transaction_started ec o =
      Option.map (λ io. record { context = io; code = ec; object = transaction o })
        (get_io_context o)

  -- `async_end_transaction_op::operator ()`, with `take_connection`
  unfoldable pub transaction_ended : ErrorCode → Object N → Option (Posted N)
  transaction_ended ec (transaction o) = post_handler ec o
  transaction_ended ec _ = none

  unfoldable pub async_start_transaction : Query N → ErrorCode × Object N → Option (Posted N)
  async_start_transaction query answer =
      Option.bind (executed query answer) (λ ended. transaction_started ended.0 ended.1)

  -- The provider is the transaction itself, a connection.
  unfoldable pub async_end_transaction : Query N → Object N → Option (Posted N)
  async_end_transaction query o =
      Option.bind (Option.bind (async_get_connection o) (executed query))
        (λ ended. transaction_ended ended.0 ended.1)

  -- `begin`, `commit` and `rollback`; `run` gives the request of a query with a text.
  unfoldable pub begin : (Bytes → Query N) → ErrorCode × Object N → Option (Posted N)
  begin run answer = async_start_transaction (run (codes "BEGIN")) answer

  unfoldable pub commit : (Bytes → Query N) → Object N → Option (Posted N)
  commit run o = async_end_transaction (run (codes "COMMIT")) o

  unfoldable pub rollback : (Bytes → Query N) → Object N → Option (Posted N)
  rollback run o = async_end_transaction (run (codes "ROLLBACK")) o

module _ {N : Type 0} where
  -- The connection that a query of a transaction starts on.
  abbrev pub reset : ConnectionImpl N → ConnectionImpl N
  reset c = record c { error_context = [] }

  -- The handler is posted to the context of the connection `c` with the code of the query, which
  -- starts on `c` with its error context reset, and with an object that leads to the connection as
  -- the query leaves it, with its timer stopped.
  abbrev pub Returns : ConnectionImpl N → Query N → Option (Posted N) → Type 0
  Returns c query result =
      (q : Posted N) × (result ≡ some q)
      × (q.code ≡ (ran_by query (reset c)).code)
      × (q.context ≡ c.socket.socket_io)
      × (unwrap_connection q.object ≡ some (left_by query (reset c)))

  async_end_transaction-Returns :
      (query : Query N) (o : Object N) (c : ConnectionImpl N)
      → unwrap_connection o ≡ some c
      → Returns c query (async_end_transaction query (transaction o))
  unfolding async_end_transaction transaction_ended post_handler get_io_context get_socket
      async_get_connection reset_error_context set_error_context modify Option.bind ran_by requested
  async_end_transaction-Returns query o c e =
      let changed = modify-Modified (λ d. record d { error_context = [] }) o c e in
      let ran = executed-transaction query changed.0 (reset c) changed.2 in
      let done : Posted N = record {
        context = c.socket.socket_io;
        code = (ran_by query (reset c)).code;
        object = ran.0;
      } in
      (done, rw changed.1 (rw ran.1 (rw ran.2 refl)), refl, refl, ran.2)

  -- A transaction that began with an object that leads to a connection posts the handler of `begin`
  -- with the code that BEGIN ends with on this connection and an object that leads to the connection
  -- as BEGIN leaves it, with its timer stopped. `commit` and `rollback` of that object run on this
  -- connection with its error context reset; they post their handlers to its context with the code
  -- that COMMIT and ROLLBACK end with, and with an object that leads to it as COMMIT and ROLLBACK
  -- leave it, with the error context that they set, and with its timer stopped.
  pub begin-end :
      (run : Bytes → Query N) (o : Object N) (c : ConnectionImpl N)
      → unwrap_connection o ≡ some c
      → (p : Posted N) × (begin run (ErrorCode.success, o) ≡ some p)
        × (p.code ≡ (ran_by (run (codes "BEGIN")) c).code)
        × (unwrap_connection p.object ≡ some (left_by (run (codes "BEGIN")) c))
        × Returns (left_by (run (codes "BEGIN")) c) (run (codes "COMMIT")) (commit run p.object)
        × Returns (left_by (run (codes "BEGIN")) c) (run (codes "ROLLBACK")) (rollback run p.object)
  unfolding begin commit rollback async_start_transaction transaction_started get_io_context
      get_socket Option.bind unwrap_connection ran_by requested
  begin-end run o c e =
      let query = run (codes "BEGIN") in
      let ran = executed-RunsTo query o c e in
      let begun : Posted N = record {
        context = c.socket.socket_io;
        code = (ran_by query c).code;
        object = transaction ran.0;
      } in
      let left = left_by query c in
      (
        begun,
        rw ran.1 (rw ran.2 refl),
        refl,
        ran.2,
        async_end_transaction-Returns (run (codes "COMMIT")) ran.0 left ran.2,
        async_end_transaction-Returns (run (codes "ROLLBACK")) ran.0 left ran.2,
      )

  -- Where the provider answers with an error and an object that leads to no connection, the
  -- operation that starts a transaction has no defined behaviour.
  pub async_start_transaction_undefined :
      (query : Query N) (ec : ErrorCode) (o : Object N)
      → is_error ec ≡ true
      → unwrap_connection o ≡ none
      → async_start_transaction query (ec, o) ≡ none
  unfolding async_start_transaction executed transaction_started get_io_context get_socket
      Option.bind
  async_start_transaction_undefined query ec o f e = rw f (rw e refl)
