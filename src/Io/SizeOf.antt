-- ===== src/Io/SizeOf.antt =====
-- include/ozo/io/size_of.h, and the `size_of` of io/array.h and io/composite.h. A `size_type` is an
-- `int32_t`, written as a number below 2 ^ 32, so every sum is taken modulo 2 ^ 32.
use ozo.Prelude.{ℕ, ◌+◌, ◌*◌, ◌-◌, ◌%◌, ◌^◌, Bool, true, false, List, [], ◌∷◌, none, some, length}
use ozo.Io.Types.{
  Scalar, boolean, character, bytea, uuid, int8, int4, int2, oid, float8, float4, text, name, Repr,
  Ty, scalar, nullable, array, composite, Members, end, member, El, Els, static_size,
}

abbrev pub int32 : ℕ → ℕ
int32 n = n % 2 ^ 32

-- -1
abbrev pub null_state_size : ℕ
null_state_size = 2 ^ 32 - 1

-- `size_of_default_impl`: the type's size, or the number of chars.
unfoldable pub size_of_scalar : (s : Scalar) → Repr s → ℕ
size_of_scalar boolean v = 1
size_of_scalar character v = 1
size_of_scalar bytea v = int32 (length v)
size_of_scalar uuid v = 16
size_of_scalar int8 v = 8
size_of_scalar int4 v = 4
size_of_scalar int2 v = 2
size_of_scalar oid v = 4
size_of_scalar float8 v = 8
size_of_scalar float4 v = 4
size_of_scalar text v = int32 (length v)
size_of_scalar name v = int32 (length v)

module _ {ℓ} {A : Type ℓ} (item_size : A → ℕ) where
  -- `data_frame_size(item)` and `frame_size(item)`, given `size_of`
  abbrev pub data_frame_size : A → ℕ
  data_frame_size v = int32 (4 + item_size v)

  abbrev pub frame_size : A → ℕ
  frame_size v = int32 (4 + data_frame_size v)

  -- `boost::accumulate(v, r, r + data_frame_size(item))`
  unfoldable pub accumulate : List A → ℕ → ℕ
  accumulate [] r = r
  accumulate (v ∷ vs) r = accumulate vs (int32 (r + data_frame_size v))

  -- `size_of_array_impl::data_size`: with items of static size the first one speaks for all.
  unfoldable pub array_data_size : Bool → List A → ℕ
  array_data_size true [] = 0
  array_data_size true (v ∷ vs) = int32 (data_frame_size v * length (v ∷ vs))
  array_data_size false vs = accumulate vs 0

unfoldable mutual
  pub size_of : (t : Ty) → El t → ℕ
  size_of (scalar s) v = size_of_scalar s v
  size_of (nullable t) none = null_state_size
  size_of (nullable t) (some v) = size_of t v
  size_of (array t) vs = int32 (12 + 8 + array_data_size (size_of t) (static_size t) vs)
  size_of (composite _ ms) v = int32 (4 + members_data_size ms v 0)

  -- `data_size` of io/composite.h: a fold from the left over the members.
  pub members_data_size : (ms : Members) → Els ms → ℕ → ℕ
  members_data_size end v r = r
  members_data_size (member t ms) v r =
      members_data_size ms v.1 (int32 (r + frame_size (size_of t) v.0))
