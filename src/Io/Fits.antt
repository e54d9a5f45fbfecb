-- ===== src/Io/Fits.antt =====
-- The values that the wire format can carry: numbers of the width of their type, and sizes and
-- counts that an `int32_t` holds.
use ozo.Prelude.{◌^◌, ◌<◌, ◌≡◌, [], ◌∷◌, none, some, arith, length, All}
use ozo.Io.Types.{
  Scalar, boolean, character, bytea, uuid, int8, int4, int2, oid, float8, float4, text, name, Repr,
  Ty, scalar, nullable, array, composite, tuple, custom, Members, end, member, El, Els, scalar_oid,
  scalar_array_oid,
}
use ozo.Io.OidMap.{TypeKey, OidMap, IsOidMap, at_key, type_oid, array_oid, nullable_array_oid}
use ozo.Io.SizeOf.{size_of, size_of_scalar}
use ozo.Io.Send.{fields_number}

abbrev pub FitsScalar : (s : Scalar) → Repr s → Type 0
FitsScalar boolean v = Unit {0}
FitsScalar character v = v < 256
FitsScalar bytea v = length v < 2 ^ 31
FitsScalar uuid v = length v ≡ 16
FitsScalar int8 v = v < 2 ^ 64
FitsScalar int4 v = v < 2 ^ 32
FitsScalar int2 v = v < 2 ^ 16
FitsScalar oid v = v < 2 ^ 32
FitsScalar float8 v = v < 2 ^ 64
FitsScalar float4 v = v < 2 ^ 32
FitsScalar text v = length v < 2 ^ 31
FitsScalar name v = length v < 2 ^ 31

abbrev mutual
  pub Fits : (t : Ty) → El t → Type 0
  Fits (scalar s) v = FitsScalar s v
  Fits (nullable t) none = Unit {0}
  Fits (nullable t) (some v) = (size_of t v < 2 ^ 31) × Fits t v
  Fits (array t) vs = (size_of (array t) vs < 2 ^ 31) × (length vs < 2 ^ 31) × All (Fits t) vs
  Fits (composite k ms) v =
      (size_of (composite k ms) v < 2 ^ 31) × (fields_number ms < 2 ^ 32) × FitsMembers ms v

  pub FitsMembers : (ms : Members) → Els ms → Type 0
  FitsMembers end v = Unit {0}
  FitsMembers (member t ms) v = Fits t v.0 × FitsMembers ms v.1

pub size_of_scalar-lt : (s : Scalar) (v : Repr s) → FitsScalar s v → size_of_scalar s v < 2 ^ 31
unfolding size_of_scalar
size_of_scalar-lt boolean v h = omega arith
size_of_scalar-lt _ v h = omega arith

pub size_of-lt : (t : Ty) (v : El t) → Fits t v → size_of t v < 2 ^ 32
unfolding size_of
size_of-lt (scalar s) v h = omega (arith, size_of_scalar-lt s v h)
size_of-lt (nullable t) none h = omega arith
size_of-lt (nullable t) (some v) h = omega (arith, h.0)
size_of-lt (array t) v h = omega arith
size_of-lt (composite k ms) v h = omega arith

at_key-lt : (m : OidMap) (k : TypeKey) → IsOidMap m → at_key m k < 2 ^ 32
unfolding at_key
at_key-lt [] k h = omega arith
at_key-lt ((j, value) ∷ m) k h = ground (arith, at_key-lt m k h.1)

scalar_oid-lt : (s : Scalar) → (scalar_oid s < 2 ^ 32) × (scalar_array_oid s < 2 ^ 32)
unfolding scalar_oid scalar_array_oid
scalar_oid-lt boolean = omega arith
scalar_oid-lt _ = omega arith

nullable_array_oid-lt : (m : OidMap) (t : Ty) → IsOidMap m → nullable_array_oid m t < 2 ^ 32
unfolding nullable_array_oid
nullable_array_oid-lt m (scalar s) h = (scalar_oid-lt s).1
nullable_array_oid-lt m (composite tuple ms) h = omega arith
nullable_array_oid-lt m (composite (custom k) ms) h = at_key-lt m (TypeKey.vector_of_nullable k) h
nullable_array_oid-lt m (nullable t) h = omega arith
nullable_array_oid-lt m (array t) h = omega arith

array_oid-lt : (m : OidMap) (t : Ty) → IsOidMap m → array_oid m t < 2 ^ 32
unfolding array_oid
array_oid-lt m (scalar s) h = (scalar_oid-lt s).1
array_oid-lt m (composite tuple ms) h = omega arith
array_oid-lt m (composite (custom k) ms) h = at_key-lt m (TypeKey.vector_of k) h
array_oid-lt m (nullable t) h = nullable_array_oid-lt m t h
array_oid-lt m (array t) h = omega arith

pub type_oid-lt : (m : OidMap) (t : Ty) → IsOidMap m → type_oid m t < 2 ^ 32
unfolding type_oid
type_oid-lt m (scalar s) h = (scalar_oid-lt s).0
type_oid-lt m (composite tuple ms) h = omega arith
type_oid-lt m (composite (custom k) ms) h = at_key-lt m (TypeKey.single k) h
type_oid-lt m (nullable t) h = type_oid-lt m t h
type_oid-lt m (array t) h = array_oid-lt m t h
