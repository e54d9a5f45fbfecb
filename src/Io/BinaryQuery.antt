-- ===== src/Io/BinaryQuery.antt =====
-- include/ozo/io/binary_query.h: the parameters of a query as the arrays that PQsendQueryParams
-- takes. A pointer into the buffer is its offset from `std::data(buffer)`, `none` is the null
-- pointer. The query's text is passed on as it is, and has no part in this.

pub mod Layout
pub mod Nulls
use ozo.Prelude.{
  ℕ, zero, suc, ◌+◌, ◌-◌, ◌*◌, ◌%◌, ◌^◌, ◌<◌, Bool, true, false, List, [], ◌∷◌, ◌++◌, Option, none,
  some, Bytes, length, map, ◌==◌, ltb, if◌then◌else◌,
}
use ozo.Io.Types.{Ty, El}
use ozo.Io.OidMap.{OidMap, type_oid}
use ozo.Io.SizeOf.{size_of}
use ozo.Io.Send.{send}

-- A parameter: a C++ type and a value of it.
pub record Param : Type 0 where
  pub ty : Ty
  pub value : El ty

-- `impl_type`; the arrays have one entry for each parameter.
pub record BinaryQuery : Type 0 where
  pub buffer : Bytes
  pub types : List ℕ
  pub formats : List ℕ
  pub lengths : List ℕ
  pub values : List (Option ℕ)

abbrev pub binary_format : ℕ
binary_format = 1

-- One call of `write_meta`: it sets the field's type, format and length, and appends to the buffer.
pub write_meta : OidMap → Param → BinaryQuery → BinaryQuery
write_meta oids p result = record result {
  buffer = result.buffer ++ send oids p.ty p.value;
  types = result.types ++ type_oid oids p.ty ∷ [];
  formats = result.formats ++ binary_format ∷ [];
  lengths = result.lengths ++ size_of p.ty p.value ∷ [];
}

-- The first `hana::for_each`
pub write_params : OidMap → List Param → BinaryQuery → BinaryQuery
write_params oids [] result = result
write_params oids (p ∷ ps) result = write_params oids ps (write_meta oids p result)

-- A `std::size_t` after `offset += size` with an `int` size: the size is sign-extended.
pub advance : ℕ → ℕ → ℕ
advance offset size =
    if ltb size (2 ^ 31)
    then (offset + size) % 2 ^ 64
    else (offset + 2 ^ 64 + size - 2 ^ 32) % 2 ^ 64

-- The second `hana::for_each`
pub set_values : ℕ → List ℕ → List (Option ℕ)
set_values offset [] = []
set_values offset (size ∷ sizes) =
    (if size == 0 then none else some offset) ∷ set_values (advance offset size) sizes

abbrev pub blank : BinaryQuery
blank = record { buffer = []; types = []; formats = []; lengths = []; values = [] }

-- `make_impl`
unfoldable pub make_impl : OidMap → List Param → BinaryQuery
make_impl oids params =
    let result : BinaryQuery = write_params oids params blank in
    record result { values = set_values 0 result.lengths }
