-- ===== src/Connections/Tests.antt =====
-- Connections on which the theorems are tried.
use ozo.Prelude.{ℕ, Bytes, ◌≡◌, refl, none, some, [], true, false, ◌==◌, if◌then◌else◌}
use ozo.Prelude.Text.{codes, bytes_eq}
use ozo.Errors.Codes.{ErrorCode}
use ozo.Connections.{
  ConnectionApi, ConnectionImpl, Object, plain, pointer, pooled, unwrap_connection,
  connection_error_message, rebind_io_context,
}
use ozo.Connections.Message.{IsTrimmed, connection_error_message-IsTrimmed}
use ozo.Connections.Rebind.{Rebound, rebind_io_context-Rebound}
use ozo.Connections.Execute.{Posted, Query, ran_by, requested, left_by}
use ozo.Connections.Transactions.{Returns, begin, commit, rollback, begin-end}

-- Handle 7 is good, the others are bad; the descriptor 3 can be assigned, and no other.
abbrev api : ConnectionApi ℕ
api = record {
  pq_status_bad = λ n. if n == 7 then false else true;
  pq_error_message = λ n. codes "out of memory  ";
  assign = λ io fd. elim fd [
    | none ↦ ErrorCode.system 9
    | some n ↦ if n == 3 then ErrorCode.success else ErrorCode.system 17
  ];
}

abbrev impl : ConnectionImpl ℕ
impl = record {
  handle = some 7;
  socket = record { socket_io = 100; native_handle = some 3 };
  oid_map = [];
  error_context = codes "old";
  timer = record { timer_io = 100; waiting = true };
}

abbrev conn : Object ℕ
conn = pointer (pooled (pointer (plain impl)))

connection_error_message-IsTrimmed_example :
    IsTrimmed (codes "out of memory  ") (connection_error_message api 7)
connection_error_message-IsTrimmed_example = connection_error_message-IsTrimmed api 7

rebind_io_context-Rebound_example :
    (ec : ErrorCode) × (p : Object ℕ) × (d : ConnectionImpl ℕ) × (rebind_io_context api 200 conn
      ≡ some (ec, p))
    × (unwrap_connection p ≡ some d)
    × Rebound 200 impl ec d
unfolding unwrap_connection
rebind_io_context-Rebound_example = rebind_io_context-Rebound api 200 conn impl refl refl

-- COMMIT fails because the connection is reset, all else succeeds.
abbrev run : Bytes → Query ℕ
run text handle error_context =
    if bytes_eq text (codes "COMMIT")
    then record {
      code = ErrorCode.system 104;
      handle = some 8;
      error_context = codes "error while get request result";
    }
    else record { code = ErrorCode.success; handle = handle; error_context = error_context }

begin-end_example :
    (p : Posted ℕ) × (begin run (ErrorCode.success, conn) ≡ some p)
    × (p.code ≡ (ran_by (run (codes "BEGIN")) impl).code)
    × (unwrap_connection p.object ≡ some (left_by (run (codes "BEGIN")) impl))
    × Returns (left_by (run (codes "BEGIN")) impl) (run (codes "COMMIT")) (commit run p.object)
    × Returns (left_by (run (codes "BEGIN")) impl) (run (codes "ROLLBACK")) (rollback run p.object)
unfolding unwrap_connection
begin-end_example = begin-end run conn impl refl

-- The failed COMMIT leaves its error context on the connection that is handed back.
commit_sets_error_context :
    (requested (run (codes "COMMIT")) impl).error_context ≡ codes "error while get request result"
unfolding requested ran_by bytes_eq
commit_sets_error_context = refl
