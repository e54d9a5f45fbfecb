-- ===== src/Io/Length/Objects.antt =====
-- `size_of` against the number of bytes that `send` writes: whole objects.
use mathlib.Core.Option.{get_or}
use ozo.Prelude.{
  ℕ, ◌+◌, ◌%◌, ◌^◌, ◌<◌, ◌≡◌, refl, true, List, [], ◌∷◌, ◌++◌, arith, length, length-append, Option,
  none, some, All,
}
use ozo.Io.Types.{
  Scalar, boolean, Repr, Composite, Ty, scalar, nullable, array, composite, Members, end, member,
  El, Els, static_size, type_size, is_some,
}
use ozo.Io.OidMap.{OidMap, type_oid}
use ozo.Io.Stream.{write_integral}
use ozo.Io.Stream.RoundTrip.{length-write_integral}
use ozo.Io.SizeOf.{int32, size_of, size_of_scalar, frame_size, members_data_size}
use ozo.Io.Send.{
  send, send_members, send_items, frame, fields_number, write_pg_array, write_pg_array_dimension,
}
use ozo.Io.Fits.{FitsScalar, size_of_scalar-lt}
use ozo.Io.Length.{
  NullFree, NullFreeMembers, length-send_scalar, length-frame, length-write_pg_array,
  length-write_pg_array_dimension, data_size-send_items,
}

-- The bytes of a value of static size.
static_bytes : Ty → ℕ
static_bytes (scalar s) = get_or (type_size s) 0
static_bytes (nullable t) = static_bytes t
static_bytes (array t) = 0
static_bytes (composite k ms) = 0

static_bytes-lt : (t : Ty) → static_bytes t < 2 ^ 31
unfolding static_bytes type_size
static_bytes-lt (scalar boolean) = omega arith
static_bytes-lt (scalar s) = omega arith
static_bytes-lt (nullable t) = static_bytes-lt t
static_bytes-lt (array t) = omega arith
static_bytes-lt (composite k ms) = omega arith

scalar-static :
    (s : Scalar) (v : Repr s)
    → is_some (type_size s) ≡ true
    → FitsScalar s v
    → size_of_scalar s v ≡ get_or (type_size s) 0
unfolding is_some type_size size_of_scalar
scalar-static boolean v e h = refl
scalar-static _ v e h = ground arith

nullable-static :
    (oids : OidMap) (t : Ty) (n : ℕ) (v : Option (El t))
    → NullFree (nullable t) v
    → ((w : El t) → NullFree t w → length (send oids t w) ≡ n)
    → length (send oids (nullable t) v) ≡ n
unfolding send
nullable-static oids t n none h ih = absurd h
nullable-static oids t n (some v) h ih = ih v h

length-send_static :
    (oids : OidMap) (t : Ty) (v : El t)
    → static_size t ≡ true
    → NullFree t v
    → length (send oids t v) ≡ static_bytes t
unfolding static_size static_bytes
length-send_static oids (scalar s) v e h =
    unfold send in omega (arith, length-send_scalar s v h, scalar-static s v e h)
length-send_static oids (nullable t) v e h =
    nullable-static oids t (static_bytes t) v h (λ w g. length-send_static oids t w e g)
length-send_static oids (array t) v e h = cc
length-send_static oids (composite k ms) v e h = cc

All-static :
    (oids : OidMap) (t : Ty) (vs : List (El t))
    → All (NullFree t) vs
    → static_size t ≡ true
    → All (λ v. length (send oids t v) ≡ static_bytes t) vs
All-static oids t [] h e = tt
All-static oids t (v ∷ vs) h e = (length-send_static oids t v e h.0, All-static oids t vs h.1 e)

-- What is to be shown of a type: `size_of` is the number of bytes, modulo 2 ^ 32.
abbrev IsExact : OidMap → (t : Ty) → El t → Type 0
IsExact oids t v = size_of t v ≡ int32 (length (send oids t v))

scalar-IsExact :
    (oids : OidMap) (s : Scalar) (v : Repr s) → FitsScalar s v → IsExact oids (scalar s) v
unfolding size_of send
scalar-IsExact oids s v h = omega (arith, length-send_scalar s v h, size_of_scalar-lt s v h)

nullable-IsExact :
    (oids : OidMap) (t : Ty) (v : Option (El t))
    → NullFree (nullable t) v
    → ((w : El t) → NullFree t w → IsExact oids t w)
    → IsExact oids (nullable t) v
unfolding size_of send
nullable-IsExact oids t none h ih = absurd h
nullable-IsExact oids t (some v) h ih = ih v h

array-IsExact :
    (oids : OidMap) (t : Ty) (vs : List (El t))
    → NullFree (array t) vs
    → ((w : El t) → NullFree t w → IsExact oids t w)
    → IsExact oids (array t) vs
unfolding size_of send
array-IsExact oids t vs h ih = omega (
  arith,
  data_size-send_items (NullFree t) (size_of t) (send oids t) ih (static_size t) (static_bytes t) vs
      h (static_bytes-lt t) (All-static oids t vs h),
  length-append (write_pg_array 1 0 (type_oid oids t))
      (write_pg_array_dimension (int32 (length vs)) 0 ++ send_items (size_of t) (send oids t) vs),
  length-append (write_pg_array_dimension (int32 (length vs)) 0)
      (send_items (size_of t) (send oids t) vs),
  length-write_pg_array 1 0 (type_oid oids t),
  length-write_pg_array_dimension (int32 (length vs)) 0,
)

member-IsExact :
    (oids : OidMap) (t : Ty) (ms : Members) (v : El t) (vs : Els ms) (r : ℕ)
    → IsExact oids t v
    → ((r : ℕ) → int32 (members_data_size ms vs r) ≡ int32 (r + length (send_members oids ms vs)))
    → int32 (members_data_size (member t ms) (v, vs) r)
      ≡ int32 (r + length (send_members oids (member t ms) (v, vs)))
unfolding size_of send
member-IsExact oids t ms v vs r exact ih = omega (
  arith,
  ih (int32 (r + frame_size (size_of t) v)),
  exact,
  length-append (frame (type_oid oids t) (size_of t v) (send oids t v)) (send_members oids ms vs),
  length-frame (type_oid oids t) (size_of t v) (send oids t v),
)

end-IsExact :
    (oids : OidMap) (r : ℕ)
    → int32 (members_data_size end tt r) ≡ int32 (r + length (send_members oids end tt))
unfolding size_of send
end-IsExact oids r = omega arith

composite-IsExact :
    (oids : OidMap) (k : Composite) (ms : Members) (v : Els ms)
    → ((r : ℕ) → int32 (members_data_size ms v r) ≡ int32 (r + length (send_members oids ms v)))
    → IsExact oids (composite k ms) v
unfolding size_of send
composite-IsExact oids k ms v ih = omega (
  arith,
  ih 0,
  length-append (write_integral 4 (int32 (fields_number ms))) (send_members oids ms v),
  length-write_integral 4 (int32 (fields_number ms)),
)

mutual
  Ty-IsExact : (oids : OidMap) (t : Ty) (v : El t) → NullFree t v → IsExact oids t v
  Ty-IsExact oids (scalar s) v h = scalar-IsExact oids s v h
  Ty-IsExact oids (nullable t) v h = nullable-IsExact oids t v h (λ w g. Ty-IsExact oids t w g)
  Ty-IsExact oids (array t) v h = array-IsExact oids t v h (λ w g. Ty-IsExact oids t w g)
  Ty-IsExact oids (composite k ms) v h =
      composite-IsExact oids k ms v (λ r. Members-IsExact oids ms v r h)

  Members-IsExact :
      (oids : OidMap) (ms : Members) (v : Els ms) (r : ℕ)
      → NullFreeMembers ms v
      → int32 (members_data_size ms v r) ≡ int32 (r + length (send_members oids ms v))
  Members-IsExact oids end v r h = end-IsExact oids r
  Members-IsExact oids (member t ms) v r h =
      member-IsExact oids t ms v.0 v.1 r (Ty-IsExact oids t v.0 h.0)
        (λ r'. Members-IsExact oids ms v.1 r' h.1)

-- For a value that holds no null and whose numbers and uuids have the width of their types,
-- `size_of` is the number of bytes that `send` writes, modulo 2 ^ 32.
pub size_of-send :
    (oids : OidMap) (t : Ty) (v : El t)
    → NullFree t v
    → size_of t v ≡ length (send oids t v) % 2 ^ 32
size_of-send oids t v h = Ty-IsExact oids t v h
