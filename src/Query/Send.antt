-- ===== src/Query/Send.antt =====
-- include/ozo/io/binary_query.h, `make_binary_query` of a query, and `pq_send_query_params` of
-- include/ozo/impl/io.h: the arguments that a query gives to PQsendQueryParams.
pub mod Placeholder
pub mod Named
mod Tests
use mathlib.Core.Option
use ozo.Prelude.{ℕ, List, Option, none, some, Bytes, length, get_elem?, take, drop}
use ozo.Io.OidMap.{OidMap}
use ozo.Io.BinaryQuery.{Param, BinaryQuery, make_impl, binary_format}

-- The arguments; a pointer of `param_values` is an offset into the buffer, or null.
pub record Arguments : Type 0 where
  pub command : Bytes
  pub params_count : ℕ
  pub param_types : List ℕ
  pub param_values : List (Option ℕ)
  pub param_lengths : List ℕ
  pub param_formats : List ℕ
  pub result_format : ℕ
  pub buffer : Bytes

-- A query with its text, as `binary_query` holds both.
unfoldable pub make_binary_query : OidMap → Bytes × List Param → Bytes × BinaryQuery
make_binary_query oids query = (query.0, make_impl oids query.1)

unfoldable pub pq_send_query_params : ℕ → Bytes × BinaryQuery → Arguments
pq_send_query_params params_count q = record {
  command = q.0;
  params_count = params_count;
  param_types = q.1.types;
  param_values = q.1.values;
  param_lengths = q.1.lengths;
  param_formats = q.1.formats;
  result_format = binary_format;
  buffer = q.1.buffer;
}

unfoldable pub send_query : OidMap → Bytes × List Param → Arguments
send_query oids query = pq_send_query_params (length query.1) (make_binary_query oids query)

-- What libpq documents to send for the parameter with index `i`, which is `$1` for 0: its oid, its
-- format, and as many bytes as its length says from its pointer on, or a null for a null pointer.
pub record Bound : Type 0 where
  pub bound_oid : ℕ
  pub bound_format : ℕ
  pub bound_bytes : Option Bytes

unfoldable pub bound : Arguments → ℕ → Option Bound
bound a i = Option.bind (get_elem? a.param_types i) (λ value_oid.
    Option.bind (get_elem? a.param_formats i) (λ format.
      Option.bind (get_elem? a.param_lengths i) (λ size.
        Option.map
          (λ pointer. record {
            bound_oid = value_oid;
            bound_format = format;
            bound_bytes = Option.map (λ offset. take size (drop offset a.buffer)) pointer;
          })
          (get_elem? a.param_values i))))
