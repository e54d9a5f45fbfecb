-- ===== src/Pool/Tests.antt =====
-- Handles on which the theorems about the pool are tried.
use mathlib.Core.Option
use ozo.Prelude.{
  arith, ◌≢◌, ◌⊎◌, ℕ, ◌≡◌, refl, none, some, [], ◌∷◌, true, false, inr, ◌==◌, if◌then◌else◌,
}
use ozo.Errors.Codes.{ErrorCode, is_error}
use ozo.Connections.{
  ConnectionApi, ConnectionImpl, Object, plain, null, pointer, unwrap_connection,
  connection_status_bad,
}
use ozo.Connections.Execute.{Query}
use ozo.Connections.Transactions.{async_start_transaction}
use ozo.Pool.{Fate, acquire, destroy}
use ozo.Async.Connect.{
  Connector, Connecting, polling_ok, no_poll, perform, started, assign_socket, resume, polled, done,
}
use ozo.Async.Connect.Completion.{Reachable}
use ozo.Async.Connect.Success.{IsPolling}
use ozo.Io.OidMap.{OidMap, single}
use ozo.Pool.Oids.{connection_answered, KeepsStatus}
use ozo.Pool.Source.{connection_of, acquire-IsReady}
use ozo.Pool.Acquire.{IsReady}
use ozo.Pool.Return.{IsFateOf, destroy-IsFateOf}
use ozo.Pool.Begin.{begin_undefined}

-- Handle 7 is good, the others are bad; any descriptor can be assigned.
abbrev api : ConnectionApi ℕ
api = record {
  pq_status_bad = λ n. if n == 7 then false else true;
  pq_error_message = λ n. [];
  assign = λ io fd. ErrorCode.success;
}

abbrev impl : ℕ → ℕ → ConnectionImpl ℕ
impl io n = record {
  handle = some n;
  socket = record { socket_io = io; native_handle = some 3 };
  oid_map = [];
  error_context = [];
  timer = record { timer_io = io; waiting = false };
}

-- A server whose connections have handle 7 and are established at the first poll.
abbrev server : Connector ℕ
server = record {
  pq_connect_start = λ conninfo. some 7;
  pq_status_bad = api.pq_status_bad;
  pq_socket = λ n. some 3;
  dup = λ fd. some 4;
  errno = 24;
  assign = λ fd. ErrorCode.success;
  pq_connect_poll = λ n. (polling_ok, 7);
}

server-IsPolling : IsPolling server
server-IsPolling n e = refl

abbrev fresh : Connecting ℕ
fresh = record { native = 0; error_context = []; timer = false; poll = no_poll; posted_codes = [] }

abbrev dialing : Connecting ℕ
dialing = perform server [] fresh

dialing_polls : dialing.poll ≢ no_poll
unfolding perform started assign_socket is_error
dialing_polls e = ground (arith, e)

-- The map has one custom type; the request for it succeeds on handle 7, and fails on the others.
abbrev oids : OidMap
oids = (single 0, 0) ∷ []

abbrev ask : Query ℕ
ask handle context = record {
  code = if connection_status_bad api handle then ErrorCode.system 104 else ErrorCode.success;
  handle = handle;
  error_context = context;
}

ask-KeepsStatus : KeepsStatus api ask
ask-KeepsStatus handle context good ok = good

-- A connection that has gone bad is replaced.
abbrev dialed : Connecting ℕ
dialed = resume server ErrorCode.success dialing

acquire-IsReady_example :
    (a r : ErrorCode × Object ℕ) × (connection_answered
        (λ f. [])
        ask
        (16384 ∷ [])
        (ErrorCode.success, connection_of 200 oids (some 4) dialed)
      ≡ some a)
    × (acquire api 200 ErrorCode.success (some (pointer (plain (impl 100 8)))) a ≡ some r)
    × ((is_error r.0 ≡ true) ⊎ IsReady api 200 r.1)
unfolding unwrap_connection perform started assign_socket is_error resume polled done
acquire-IsReady_example =
    acquire-IsReady server api 200 [] fresh dialed ErrorCode.success oids (some 4) (λ f. []) ask
      (16384 ∷ []) ErrorCode.success (some (pointer (plain (impl 100 8)))) refl server-IsPolling
      ask-KeepsStatus refl (Reachable.step dialing ErrorCode.success Reachable.start dialing_polls)
      refl (impl 100 8, refl, refl)

destroy-IsFateOf_example :
    (fate : Fate ℕ) × (destroy api (some (pointer (plain (impl 100 8)))) ≡ some fate)
    × IsFateOf api (impl 100 8) (pointer (plain (impl 100 8))) fate
unfolding unwrap_connection
destroy-IsFateOf_example = destroy-IsFateOf api (pointer (plain (impl 100 8))) (impl 100 8) refl

abbrev succeeds : Query ℕ
succeeds handle error_context = record {
  code = ErrorCode.success;
  handle = handle;
  error_context = error_context;
}

begin_undefined_example :
    Option.bind
      (acquire api 200 ErrorCode.success none (ErrorCode.system 111, null))
      (async_start_transaction succeeds)
    ≡ none
unfolding is_error
begin_undefined_example =
    begin_undefined api 200 succeeds ErrorCode.success none (ErrorCode.system 111, null)
      (inr (refl, refl))
