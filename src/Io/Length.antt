-- ===== src/Io/Length.antt =====
-- `size_of` against the number of bytes that `send` writes: the parts of an object.
pub mod Objects
pub mod Nulls
use ozo.Prelude.{
  ℕ, zero, suc, ◌+◌, ◌*◌, ◌%◌, ◌^◌, ◌<◌, ◌≡◌, refl, ap, ◌∙◌, Bool, true, false, List, [], ◌∷◌, ◌++◌,
  arith, length, length-append, Option, none, some, Bytes, All, replicate,
}
use ozo.Io.Types.{
  Scalar, boolean, character, bytea, uuid, int8, int4, int2, oid, float8, float4, text, name, Repr,
  Composite, Ty, scalar, nullable, array, composite, Members, end, member, El, Els, static_size,
  type_size, is_some,
}
use ozo.Io.OidMap.{OidMap, type_oid}
use ozo.Io.Stream.{write_integral, write_char, write_bool}
use ozo.Io.Stream.RoundTrip.{length-write_integral}
use ozo.Io.SizeOf.{
  int32, size_of, size_of_scalar, data_frame_size, frame_size, accumulate, array_data_size,
  members_data_size,
}
use ozo.Io.Send.{
  send, send_members, send_items, send_scalar, data_frame, frame, fields_number, write_pg_array,
  write_pg_array_dimension,
}
use ozo.Io.Fits.{FitsScalar}

-- A value holds no null anywhere, and its numbers and uuids have the width of their type.
abbrev mutual
  pub NullFree : (t : Ty) → El t → Type 0
  NullFree (scalar s) v = FitsScalar s v
  NullFree (nullable t) none = ⊥
  NullFree (nullable t) (some v) = NullFree t v
  NullFree (array t) vs = All (NullFree t) vs
  NullFree (composite _ ms) v = NullFreeMembers ms v

  pub NullFreeMembers : (ms : Members) → Els ms → Type 0
  NullFreeMembers end v = Unit {0}
  NullFreeMembers (member t ms) v = NullFree t v.0 × NullFreeMembers ms v.1

pub length-send_scalar :
    (s : Scalar) (v : Repr s) → FitsScalar s v → size_of_scalar s v ≡ length (send_scalar s v)
unfolding size_of_scalar send_scalar write_bool write_char
length-send_scalar boolean v h = refl
length-send_scalar character v h = refl
length-send_scalar bytea v h = omega arith
length-send_scalar uuid v h = omega arith
length-send_scalar int8 v h = omega (arith, length-write_integral 8 v)
length-send_scalar int4 v h = omega (arith, length-write_integral 4 v)
length-send_scalar int2 v h = omega (arith, length-write_integral 2 v)
length-send_scalar oid v h = omega (arith, length-write_integral 4 v)
length-send_scalar float8 v h = omega (arith, length-write_integral 8 v)
length-send_scalar float4 v h = omega (arith, length-write_integral 4 v)
length-send_scalar text v h = omega arith
length-send_scalar name v h = omega arith

pub length-data_frame : (size : ℕ) (sent : Bytes) → length (data_frame size sent) ≡ 4 + length sent
unfolding data_frame
length-data_frame size sent =
    omega (arith, length-append (write_integral 4 size) sent, length-write_integral 4 size)

pub length-frame :
    (value_oid size : ℕ) (sent : Bytes) → length (frame value_oid size sent) ≡ 8 + length sent
unfolding frame
length-frame value_oid size sent = omega (
  arith,
  length-append (write_integral 4 value_oid) (data_frame size sent),
  length-write_integral 4 value_oid,
  length-data_frame size sent,
)

pub length-write_pg_array :
    (count offset elemtype : ℕ) → length (write_pg_array count offset elemtype) ≡ 12
unfolding write_pg_array
length-write_pg_array count offset elemtype = omega (
  arith,
  length-append (write_integral 4 count) (write_integral 4 offset ++ write_integral 4 elemtype),
  length-append (write_integral 4 offset) (write_integral 4 elemtype),
  length-write_integral 4 count,
  length-write_integral 4 offset,
  length-write_integral 4 elemtype,
)

pub length-write_pg_array_dimension :
    (size index : ℕ) → length (write_pg_array_dimension size index) ≡ 8
unfolding write_pg_array_dimension
length-write_pg_array_dimension size index = omega (
  arith,
  length-append (write_integral 4 size) (write_integral 4 index),
  length-write_integral 4 size,
  length-write_integral 4 index,
)

module _ {ℓ κ} {A : Type ℓ} (Good : A → Type κ) (size : A → ℕ) (sent : A → Bytes)
    (exact : (v : A) → Good v → size v ≡ int32 (length (sent v))) where
  accumulate-send_items :
      (vs : List A) (r : ℕ)
      → All Good vs
      → int32 (accumulate size vs r) ≡ int32 (r + length (send_items size sent vs))
  unfolding accumulate send_items
  accumulate-send_items [] r h = omega arith
  accumulate-send_items (v ∷ vs) r h = omega (
    arith,
    accumulate-send_items vs (int32 (r + data_frame_size size v)) h.1,
    exact v h.0,
    length-append (data_frame (size v) (sent v)) (send_items size sent vs),
    length-data_frame (size v) (sent v),
  )

  -- Items of one size `n`.
  length-send_items_static :
      (n : ℕ) (vs : List A)
      → All (λ v. length (sent v) ≡ n) vs
      → length (send_items size sent vs) ≡ (4 + n) * length vs
  unfolding send_items
  length-send_items_static n [] h = omega arith
  length-send_items_static n (v ∷ vs) h = omega (
    arith,
    length-send_items_static n vs h.1,
    length-append (data_frame (size v) (sent v)) (send_items size sent vs),
    length-data_frame (size v) (sent v),
    h.0,
  )

  pub data_size-send_items :
      (static : Bool) (n : ℕ) (vs : List A)
      → All Good vs
      → n < 2 ^ 31
      → (static ≡ true → All (λ v. length (sent v) ≡ n) vs)
      → int32 (array_data_size size static vs) ≡ int32 (length (send_items size sent vs))
  unfolding array_data_size
  data_size-send_items false n vs h small same = omega (arith, accumulate-send_items vs 0 h)
  data_size-send_items true n [] h small same = unfold send_items in refl
  data_size-send_items true n (v ∷ vs) h small same =
      let width : data_frame_size size v ≡ 4 + n = omega (arith, exact v h.0, (same refl).0) in
      rw width (omega (arith, length-send_items_static n (v ∷ vs) (same refl)))
