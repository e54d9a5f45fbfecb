-- ===== src/Async/Request/OutHandler.antt =====
-- `async_request_out_handler` of include/ozo/impl/async_request.h: the processor of a request's
-- result that receives its rows.
pub mod Received
pub mod Success
use ozo.Prelude.{List, Bytes, Option, none, some}
use ozo.Prelude.Result.{ok, err}
use ozo.Io.OidMap.{OidMap}
use ozo.Io.Stream.{Failure}
use ozo.Rows.{PgResult}
use ozo.Rows.Receive.{RowType, ElRow, recv_result}

-- The message of what it throws, if it does; `what` gives the texts of the exceptions.
unfoldable pub out_handler :
    (Failure → Bytes) → OidMap → (r : RowType) → List (ElRow r) → PgResult → Option Bytes
out_handler what oids r out res = elim (recv_result res oids r out) [
  | err failure ↦ some (what failure)
  | ok received ↦ none
]
