-- ===== src/Async/RequestOids.antt =====
-- include/ozo/impl/request_oid_map.h, and `request_oid_map_handler` of impl/async_connect.h: a new
-- connection asks the database for the oids of its custom types. The names of the types are libpq's
-- and the database's business; the result is the numbers of one column, in the order of the map.
pub mod Lookup
pub mod Answer
mod Tests
use ozo.Prelude.{
  ℕ, ◌≡◌, Bool, true, false, ◌||◌, List, [], ◌∷◌, ◌++◌, Option, none, some, Bytes, length, ◌==◌,
  if◌then◌else◌,
}
use ozo.Prelude.Text.{codes, to_string}
use ozo.Errors.Codes.{ErrorCode, Code, is_error}
use ozo.Io.Types.{null_oid}
use ozo.Io.OidMap.{OidMap, TypeKey, empty}

-- What `set_oid_map` throws: `std::length_error`, or `std::invalid_argument` for a type.
pub data Failure : Type 0 where
  length_error : Failure
  null_oid_for : TypeKey → Failure

-- The loop over the keys; the types before a null oid have been set when it throws.
unfoldable pub set_keys : OidMap → List ℕ → Option Failure × OidMap
set_keys [] res = (none, [])
set_keys ((key, old) ∷ map) [] = (none, (key, old) ∷ map)
set_keys ((key, old) ∷ map) (oid ∷ res) =
    let rest = set_keys map res in
    if oid == null_oid
    then (some (null_oid_for key), (key, old) ∷ map)
    else (rest.0, (key, oid) ∷ rest.1)

unfoldable pub set_oid_map : OidMap → List ℕ → Option Failure × OidMap
set_oid_map map res =
    let set = set_keys map res in if length map == length res then set else (some length_error, map)

-- A connection as the handlers see it: its map and its error context.
pub record Connection : Type 0 where
  pub oid_map : OidMap
  pub error_context : Bytes

-- `request_oid_map_op::operator ()`: what the handler is called with. `what` gives the texts of the
-- exceptions, which name a C++ type.
unfoldable pub oids_received :
    (Failure → Bytes) → ErrorCode → List ℕ → Connection → ErrorCode × Connection
oids_received what ec res conn =
    let set = set_oid_map conn.oid_map res in
    if is_error ec then (ec, conn) else elim set.0 [
      | none ↦ (ec, record conn { oid_map = set.1 })
      | some failure ↦ (
        ErrorCode.error Code.oid_request_failed,
        record { oid_map = set.1; error_context = what failure },
      )
    ]

-- `request_oid_map_handler::operator ()`: the handler is called at once, or the oids are requested.
pub data Next : Type 0 where
  handled : ErrorCode → Connection → Next
  request_oids : Connection → Next

unfoldable pub connected : ErrorCode → Connection → Next
connected ec conn = if is_error ec || empty conn.oid_map then handled ec conn else request_oids conn
