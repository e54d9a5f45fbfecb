-- ===== src/Io/Types.antt =====
-- include/ozo/type_traits.h, core/nullable.h and core/unwrap.h: the C++ types that can be sent and
-- received, their values, sizes and oids. `nullable` stands for `std::optional` and the smart
-- pointers, a composite for `std::tuple` and the adapted structures. `unwrap_type` takes one
-- nullable off, so nullables of nullables and arrays of arrays have no definition in C++ and do
-- not compile; the functions below are total and say nothing about the program there.
use ozo.Prelude.{ℕ, Bool, true, false, List, [], Option, none, some, Bytes, replicate}

-- The built-in types, by their names in the database. A number is its object representation, so a
-- float is the integer of the same size with the same bits (`to_integral`, `to_floating_point`).
pub data Scalar : Type 0 where
  boolean character bytea uuid int8 int4 int2 oid float8 float4 text name : Scalar

-- A custom type is known by a number that stands for the C++ type.
pub data Composite : Type 0 where
  tuple : Composite
  custom : ℕ → Composite

mutual
  pub data Ty : Type 0 where
    scalar : Scalar → Ty
    nullable : Ty → Ty
    array : Ty → Ty
    composite : Composite → Members → Ty

  pub data Members : Type 0 where
    end : Members
    member : Ty → Members → Members

abbrev pub Repr : Scalar → Type 0
Repr boolean = Bool
Repr bytea = Bytes
Repr uuid = Bytes
Repr text = Bytes
Repr name = Bytes
Repr _ = ℕ

-- The values of a type.
abbrev mutual
  pub El : Ty → Type 0
  El (scalar s) = Repr s
  El (nullable t) = Option (El t)
  El (array t) = List (El t)
  El (composite _ ms) = Els ms

  pub Els : Members → Type 0
  Els end = Unit {0}
  Els (member t ms) = El t × Els ms

-- Value-initialized objects: `T{}`.
unfoldable pub init_scalar : (s : Scalar) → Repr s
init_scalar boolean = false
init_scalar character = 0
init_scalar bytea = []
init_scalar uuid = replicate 16 0
init_scalar int8 = 0
init_scalar int4 = 0
init_scalar int2 = 0
init_scalar oid = 0
init_scalar float8 = 0
init_scalar float4 = 0
init_scalar text = []
init_scalar name = []

unfoldable mutual
  pub init : (t : Ty) → El t
  init (scalar s) = init_scalar s
  init (nullable t) = none
  init (array t) = []
  init (composite _ ms) = init_members ms

  pub init_members : (ms : Members) → Els ms
  init_members end = tt
  init_members (member t ms) = (init t, init_members ms)

-- `type_traits<T>::size`; `none` is `dynamic_size`.
unfoldable pub type_size : Scalar → Option ℕ
type_size boolean = some 1
type_size character = some 1
type_size bytea = none
type_size uuid = some 16
type_size int8 = some 8
type_size int4 = some 4
type_size int2 = some 2
type_size oid = some 4
type_size float8 = some 8
type_size float4 = some 4
type_size text = none
type_size name = none

unfoldable pub is_some {ℓ} : {A : Type ℓ} → Option A → Bool
is_some (some _) = true
is_some none = false

-- `StaticSize`: arrays, tuples and custom types have `dynamic_size`.
unfoldable pub static_size : Ty → Bool
static_size (scalar s) = is_some (type_size s)
static_size (nullable t) = static_size t
static_size (array _) = false
static_size (composite _ _) = false

-- `type_traits<T>::oid`, and that of `std::vector<T>`.
unfoldable pub scalar_oid : Scalar → ℕ
scalar_oid boolean = 16
scalar_oid character = 18
scalar_oid bytea = 17
scalar_oid uuid = 2950
scalar_oid int8 = 20
scalar_oid int4 = 23
scalar_oid int2 = 21
scalar_oid oid = 26
scalar_oid float8 = 701
scalar_oid float4 = 700
scalar_oid text = 25
scalar_oid name = 19

unfoldable pub scalar_array_oid : Scalar → ℕ
scalar_array_oid boolean = 1000
scalar_array_oid character = 1002
scalar_array_oid bytea = 1001
scalar_array_oid uuid = 2951
scalar_array_oid int8 = 1016
scalar_array_oid int4 = 1007
scalar_array_oid int2 = 1005
scalar_array_oid oid = 1028
scalar_array_oid float8 = 1022
scalar_array_oid float4 = 1021
scalar_array_oid text = 1009
scalar_array_oid name = 1003

abbrev pub null_oid : ℕ
null_oid = 0
