-- ===== src/Async/Connect/Tests.antt =====
-- Connecting, tried on a server.
use ozo.Prelude.{◌≢◌, refl, Bool, true, false, [], some, arith}
use ozo.Errors.Codes.{ErrorCode, is_error}
use ozo.Async.Connect.{
  Connector, Connecting, polling_writing, polling_ok, no_poll, perform, started, assign_socket,
  resume,
}
use ozo.Async.Connect.Completion.{Phase, Reachable, perform-Reachable}

-- A server that first wants its socket written, and then is connected.
abbrev server : Connector Bool
server = record {
  pq_connect_start = λ conninfo. some false;
  pq_status_bad = λ n. false;
  pq_socket = λ n. some 3;
  dup = λ fd. some 4;
  errno = 24;
  assign = λ fd. ErrorCode.success;
  pq_connect_poll = λ n. (elim n [ false ↦ polling_writing | true ↦ polling_ok ], true);
}

abbrev fresh : Connecting Bool
fresh = record {
  native = false;
  error_context = [];
  timer = false;
  poll = no_poll;
  posted_codes = [];
}

abbrev dialing : Connecting Bool
dialing = perform server [] fresh

dialing_polls : dialing.poll ≢ no_poll
unfolding perform started assign_socket is_error
dialing_polls e = ground (arith, e)

perform-Reachable_example : Phase (resume server ErrorCode.success dialing)
perform-Reachable_example =
    perform-Reachable server [] fresh (resume server ErrorCode.success dialing) refl
      (Reachable.step dialing ErrorCode.success Reachable.start dialing_polls)
