-- ===== src/Async/Connect.antt =====
-- include/ozo/impl/async_connect.h, with `start_connection`, `assign_socket` and `connect_poll` of
-- impl/io.h. The callback of the timer cancels the socket, so that a poll ends with an error code.
pub mod Completion
pub mod Success
mod Tests
use ozo.Prelude.{
  ℕ, ◌≡◌, Bool, true, false, List, [], ◌∷◌, ◌++◌, Option, none, some, Bytes, if◌then◌else◌,
}
use ozo.Prelude.Text.{codes}
use ozo.Errors.Codes.{ErrorCode, Code, is_error}

-- `PostgresPollingStatusType`
pub data PollingStatus : Type 0 where
  polling_failed polling_reading polling_writing polling_ok polling_active : PollingStatus

-- What connecting calls of libpq, the system and asio: PQconnectStart (`none` is null), PQstatus
-- being CONNECTION_BAD, PQsocket (`none` is -1), `dup` (`none` is -1), the error code of `errno`
-- behind it, the assignment of the descriptor to the socket, and PQconnectPoll.
pub record Connector (N : Type 0) : Type 0 where
  pub pq_connect_start : Bytes → Option N
  pub pq_status_bad : N → Bool
  pub pq_socket : N → Option ℕ
  pub dup : ℕ → Option ℕ
  pub errno : ℕ
  pub assign : ℕ → ErrorCode
  pub pq_connect_poll : N → PollingStatus × N

-- What the operation waits for: nothing, or that the socket can be written or read.
pub data Poll : Type 0 where
  no_poll write_poll read_poll : Poll

-- `connect_operation_context`, with the connection's error context, and the error codes that the
-- handler has been posted with. `timer` tells whether the timer has been started.
pub record Connecting (N : Type 0) : Type 0 where
  pub native : N
  pub error_context : Bytes
  pub timer : Bool
  pub poll : Poll
  pub posted_codes : List ErrorCode

module _ {N : Type 0} (pq : Connector N) where
  -- `async_connect_op::done`
  unfoldable pub done : ErrorCode → Connecting N → Connecting N
  done ec s = record s { poll = no_poll; posted_codes = s.posted_codes ++ ec ∷ [] }

  -- `pq_assign_socket`: the error code, and the error context that it leaves
  unfoldable pub assign_socket : Connecting N → ErrorCode × Connecting N
  assign_socket s = elim (pq.pq_socket s.native) [
    | none ↦ (ErrorCode.error Code.pq_socket_failed, s)
    | some fd ↦ elim (pq.dup fd) [
      | none ↦ (
        ErrorCode.system pq.errno,
        record s { error_context = codes "error while dup(fd) for socket stream" },
      )
      | some new_fd ↦
          let ec = pq.assign new_fd in
          (ec, if is_error ec then record s { error_context = codes "assign socket failed" } else s)
    ]
  ]

  -- Behind a handle that is not null: `perform` from `connection_bad` on.
  unfoldable pub started : Connecting N → Connecting N
  started s =
      let assigned = assign_socket s in
      if pq.pq_status_bad s.native
      then done (ErrorCode.error Code.pq_connection_status_bad) s
      else if is_error assigned.0
      then done assigned.0 assigned.1
      else record (assigned.1) { timer = true; poll = write_poll }

  -- `async_connect_op::perform`, with `pq_start_connection`
  unfoldable pub perform : Bytes → Connecting N → Connecting N
  perform conninfo s = elim (pq.pq_connect_start conninfo) [
    | none ↦ done (ErrorCode.error Code.pq_connection_start_failed) s
    | some handle ↦ started (record s { native = handle })
  ]

  -- The `switch` over `connect_poll`.
  unfoldable pub polled : PollingStatus → Connecting N → Connecting N
  polled polling_ok s = done ErrorCode.success s
  polled polling_writing s = record s { poll = write_poll }
  polled polling_reading s = record s { poll = read_poll }
  polled polling_failed s = done (ErrorCode.error Code.pq_connect_poll_failed) s
  polled polling_active s = done (ErrorCode.error Code.pq_connect_poll_failed) s

  -- `async_connect_op::operator ()`
  unfoldable pub resume : ErrorCode → Connecting N → Connecting N
  resume ec s =
      let connect = pq.pq_connect_poll s.native in
      if is_error ec
      then done ec (record s {
        error_context = elim s.error_context [
          | [] ↦ codes "error while connection polling"
          | c ∷ cs ↦ c ∷ cs
        ];
      })
      else polled connect.0 (record s { native = connect.1 })
