-- ===== src/Io/OidMap.antt =====
-- include/ozo/type_traits.h: `oid_map_t`, the oids of the custom types, which the database gives
-- at run time, and `type_oid` and `accepts_oid` over it.
use ozo.Prelude.{ℕ, ◌^◌, ◌<◌, Bool, true, false, List, [], ◌∷◌, ◌==◌, if◌then◌else◌, All, map}
use ozo.Io.Types.{
  Ty, scalar, nullable, array, composite, tuple, custom, scalar_oid, scalar_array_oid, null_oid,
}

-- A registered C++ type: a custom type, a vector of one, or a vector of its nullables.
pub data TypeKey : Type 0 where
  single vector_of vector_of_nullable : ℕ → TypeKey

unfoldable pub key_eq : TypeKey → TypeKey → Bool
key_eq (single a) (single b) = a == b
key_eq (vector_of a) (vector_of b) = a == b
key_eq (vector_of_nullable a) (vector_of_nullable b) = a == b
key_eq _ _ = false

-- `hana::map` from types to oids, in the order of registration.
abbrev pub OidMap : Type 0
OidMap = List (TypeKey × ℕ)

-- `register_types<T ...>()`.
unfoldable pub register_types : List TypeKey → OidMap
register_types keys = map (λ k. (k, null_oid)) keys

-- `map.impl[type]`. A type that is not registered does not compile; here it has no oid.
unfoldable pub at_key : OidMap → TypeKey → ℕ
at_key [] k = null_oid
at_key ((j, value) ∷ m) k = if key_eq j k then value else at_key m k

unfoldable pub set_type_oid : OidMap → TypeKey → ℕ → OidMap
set_type_oid [] k value = []
set_type_oid ((j, old) ∷ m) k value =
    if key_eq j k then (j, value) ∷ m else (j, old) ∷ set_type_oid m k value

-- `definitions::array<unwrap_type<T>>::oid`, or the map's; `T` is the type of the items, which may
-- be nullable.
unfoldable pub nullable_array_oid : OidMap → Ty → ℕ
nullable_array_oid m (scalar s) = scalar_array_oid s
nullable_array_oid m (composite tuple _) = 2287
nullable_array_oid m (composite (custom k) _) = at_key m (vector_of_nullable k)
nullable_array_oid m (nullable _) = null_oid
nullable_array_oid m (array _) = null_oid

unfoldable pub array_oid : OidMap → Ty → ℕ
array_oid m (scalar s) = scalar_array_oid s
array_oid m (composite tuple _) = 2287
array_oid m (composite (custom k) _) = at_key m (vector_of k)
array_oid m (nullable t) = nullable_array_oid m t
array_oid m (array _) = null_oid

unfoldable pub type_oid : OidMap → Ty → ℕ
type_oid m (scalar s) = scalar_oid s
type_oid m (composite tuple _) = 2249
type_oid m (composite (custom k) _) = at_key m (single k)
type_oid m (nullable t) = type_oid m t
type_oid m (array t) = array_oid m t

unfoldable pub accepts_oid : OidMap → Ty → ℕ → Bool
accepts_oid m t value = type_oid m t == value

-- `empty(map)`
unfoldable pub empty : OidMap → Bool
empty [] = true
empty (_ ∷ _) = false

-- Every oid in the map is an `oid_t`.
abbrev pub IsOidMap : OidMap → Type 0
IsOidMap = All (λ e. e.1 < 2 ^ 32)
