-- ===== src/Connections.antt =====
-- include/ozo/impl/connection.h, connection.h, and the `unwrap_connection` of impl/connection_pool.h
-- and impl/transaction.h: connections, the objects that wrap them, and what is done through any
-- wrapper. Where a wrapper leads to no connection the behaviour is undefined, which is `none`.
-- Statistics have no operations, and are left out.
pub mod Message
pub mod Rebind
pub mod Calls
pub mod Execute
pub mod Transactions
mod Tests
use mathlib.Core.Option
use ozo.Prelude.{
  ℕ, Bool, true, false, not, List, [], ◌∷◌, ◌-◌, ◌+◌, Option, none, some, Bytes, ◌==◌, ltb,
  if◌then◌else◌, length, take,
}
use ozo.Errors.Codes.{ErrorCode, is_error}
use ozo.Io.OidMap.{OidMap}

-- What connections call of libpq and asio: PQstatus being CONNECTION_BAD, PQerrorMessage, and the
-- assignment of a descriptor (`none` is -1) to a new socket of the context at an address.
pub record ConnectionApi (N : Type 0) : Type 0 where
  pub pq_status_bad : N → Bool
  pub pq_error_message : N → Bytes
  pub assign : ℕ → Option ℕ → ErrorCode

-- `asio::posix::stream_descriptor` and `asio::steady_timer`: the address of their context, and the
-- descriptor, if one is assigned.
pub record Socket : Type 0 where
  pub socket_io : ℕ
  pub native_handle : Option ℕ

pub record Timer : Type 0 where
  pub timer_io : ℕ
  pub waiting : Bool

-- `connection_impl`
pub record ConnectionImpl (N : Type 0) : Type 0 where
  pub handle : Option N
  pub socket : Socket
  pub oid_map : OidMap
  pub error_context : Bytes
  pub timer : Timer

-- A connection object: `connection_impl` itself, a null pointer, a pointer to a connection object, a
-- `pooled_connection` whose handle is empty or holds a connection object, or a `transaction` that
-- shares none or one.
pub data Object (N : Type 0) : Type 0 where
  plain : ConnectionImpl N → Object N
  null empty_pooled empty_transaction : Object N
  pointer pooled transaction : Object N → Object N

module _ {N : Type 0} where
  unfoldable pub unwrap_connection : Object N → Option (ConnectionImpl N)
  unwrap_connection (plain c) = some c
  unwrap_connection null = none
  unwrap_connection (pointer o) = unwrap_connection o
  unwrap_connection empty_pooled = none
  unwrap_connection (pooled o) = unwrap_connection o
  unwrap_connection empty_transaction = none
  unwrap_connection (transaction o) = unwrap_connection o

  -- The object after `f` is done to the connection behind it.
  unfoldable pub modify : (ConnectionImpl N → ConnectionImpl N) → Object N → Option (Object N)
  modify f (plain c) = some (plain (f c))
  modify f null = none
  modify f (pointer o) = Option.map pointer (modify f o)
  modify f empty_pooled = none
  modify f (pooled o) = Option.map pooled (modify f o)
  modify f empty_transaction = none
  modify f (transaction o) = Option.map transaction (modify f o)

  unfoldable pub get_native_handle : Object N → Option (Option N)
  get_native_handle o = Option.map (λ c. c.handle) (unwrap_connection o)

  unfoldable pub get_socket : Object N → Option Socket
  get_socket o = Option.map (λ c. c.socket) (unwrap_connection o)

  unfoldable pub get_io_context : Object N → Option ℕ
  get_io_context o = Option.map (λ s. s.socket_io) (get_socket o)

  unfoldable pub get_oid_map : Object N → Option OidMap
  get_oid_map o = Option.map (λ c. c.oid_map) (unwrap_connection o)

  unfoldable pub get_timer : Object N → Option Timer
  get_timer o = Option.map (λ c. c.timer) (unwrap_connection o)

  unfoldable pub get_error_context : Object N → Option Bytes
  get_error_context o = Option.map (λ c. c.error_context) (unwrap_connection o)

  unfoldable pub set_error_context : Bytes → Object N → Option (Object N)
  set_error_context context o = modify (λ c. record c { error_context = context }) o

  unfoldable pub reset_error_context : Object N → Option (Object N)
  reset_error_context o = set_error_context [] o

  -- `close_connection`: the socket is closed, and the handle reset.
  unfoldable pub closed : ConnectionImpl N → ConnectionImpl N
  closed c = record c { socket = record (c.socket) { native_handle = none }; handle = none }

  unfoldable pub close_connection : Object N → Option (Object N)
  close_connection o = modify closed o

  -- `async_get_connection` of a connection: the error code that its handler is dispatched with, and
  -- the object.
  unfoldable pub async_get_connection : Object N → Option (ErrorCode × Object N)
  async_get_connection o = Option.map (λ p. (ErrorCode.success, p)) (reset_error_context o)

-- The last position of a char that is not a space.
unfoldable pub find_last_not_of : Bytes → Option ℕ
find_last_not_of [] = none
find_last_not_of (c ∷ cs) = elim (find_last_not_of cs) [
  | some i ↦ some (i + 1)
  | none ↦ if c == b' ' then none else some 0
]

unfoldable pub remove_suffix : ℕ → Bytes → Bytes
remove_suffix n v = take (length v - n) v

module _ {N : Type 0} (api : ConnectionApi N) where
  unfoldable pub connection_status_bad : Option N → Bool
  connection_status_bad none = true
  connection_status_bad (some handle) = api.pq_status_bad handle

  -- A null pointer is bad; the pointers that other wrappers hold are not looked at.
  unfoldable pub connection_bad : Object N → Option Bool
  connection_bad null = some true
  connection_bad o = Option.map connection_status_bad (get_native_handle o)

  unfoldable pub connection_good : Object N → Option Bool
  connection_good o = Option.map not (connection_bad o)

  unfoldable pub connection_error_message : N → Bytes
  connection_error_message handle =
      let v = api.pq_error_message handle in
      elim (find_last_not_of v) [
        | none ↦ remove_suffix (length v) v
        | some trim_pos ↦
            if ltb trim_pos (length v) then remove_suffix (length v - trim_pos - 1) v else v
      ]

  -- `rebind_connection_io_context`: the error code, and the connection that it leaves.
  unfoldable pub rebind_connection : ℕ → ConnectionImpl N → ErrorCode × ConnectionImpl N
  rebind_connection io c =
      let ec = api.assign io c.socket.native_handle in
      if c.socket.socket_io == io
      then (ErrorCode.success, c)
      else if is_error ec
      then (ec, c)
      else (
        ErrorCode.success,
        record c {
          socket = record { socket_io = io; native_handle = c.socket.native_handle };
          timer = record { timer_io = io; waiting = false };
        },
      )

  unfoldable pub rebind_io_context : ℕ → Object N → Option (ErrorCode × Object N)
  rebind_io_context io o = elim (unwrap_connection o) [
    | none ↦ none
    | some c ↦
        let bound = rebind_connection io c in
        Option.map (λ p. (bound.0, p)) (modify (λ _. bound.1) o)
  ]
