-- ===== src/Io/RoundTrip.antt =====
-- What `send` writes, `recv` reads back.
pub mod Parts
use ozo.Prelude.{
  ℕ, ◌+◌, ◌^◌, ◌<◌, ◌≡◌, refl, ap, ◌∙◌, Bool, true, false, List, [], ◌∷◌, ◌++◌, arith, length,
  Option, none, some, append_assoc, Bytes, ◌==◌, ==_self, All,
}
use ozo.Prelude.Result.{ok, ◌>>=◌}
use ozo.Io.Types.{
  Scalar, Repr, Composite, Ty, scalar, nullable, array, composite, Members, end, member, El, Els,
  init, init_members,
}
use ozo.Io.OidMap.{OidMap, IsOidMap, type_oid, accepts_oid}
use ozo.Io.Stream.{write_integral}
use ozo.Io.SizeOf.{int32, null_state_size, size_of, size_of_scalar}
use ozo.Io.Send.{
  send, send_members, send_items, frame, fields_number, write_pg_array, write_pg_array_dimension,
}
use ozo.Io.Recv.{recv, recv_members, check_oid, init_nullable, recv_data_frame}
use ozo.Io.Fits.{FitsScalar, Fits, FitsMembers, size_of_scalar-lt, size_of-lt, type_oid-lt}
use Parts.{recv-send_scalar, recv_frame-append, recv_array-send, read_and_verify_header-append}

accepts_own_oid : (oids : OidMap) (t : Ty) → accepts_oid oids t (type_oid oids t) ≡ true
unfolding accepts_oid
accepts_own_oid oids t = ==_self (type_oid oids t)

check_own_oid : (oids : OidMap) (t : Ty) → check_oid oids t (some (type_oid oids t)) ≡ ok tt
unfolding check_oid
check_own_oid oids t = rw (accepts_own_oid oids t) refl

check_no_oid : (oids : OidMap) (t : Ty) → check_oid oids t none ≡ ok tt
unfolding check_oid
check_no_oid oids t = refl

not_null : (size : ℕ) → size < 2 ^ 31 → (size == null_state_size) ≡ false
not_null size h = ground arith

-- What is to be shown of a type: a fitting value is received from what was sent.
abbrev Trips : OidMap → (t : Ty) → Option ℕ → El t → Bytes → Type 0
Trips oids t value_oid v rest =
    recv oids t value_oid (size_of t v) (init t) (send oids t v ++ rest) ≡ ok (v, rest)

scalar-Trips :
    (oids : OidMap) (s : Scalar) (v : Repr s) (value_oid : Option ℕ) (rest : Bytes)
    → FitsScalar s v
    → check_oid oids (scalar s) value_oid ≡ ok tt
    → Trips oids (scalar s) value_oid v rest
unfolding recv send size_of
scalar-Trips oids s v value_oid rest h c =
    rw (c, not_null (size_of_scalar s v) (size_of_scalar-lt s v h)) (recv-send_scalar s v rest h)

nullable-Trips :
    (oids : OidMap) (t : Ty) (v : Option (El t)) (value_oid : Option ℕ) (rest : Bytes)
    → Fits (nullable t) v
    → check_oid oids (nullable t) value_oid ≡ ok tt
    → ((w : El t) → Fits t w → Trips oids t none w rest)
    → Trips oids (nullable t) value_oid v rest
unfolding recv send size_of init init_nullable
nullable-Trips oids t none value_oid rest h c ih = refl
nullable-Trips oids t (some v) value_oid rest h c ih =
    rw (c, not_null (size_of t v) h.0, ih v h.1) refl

array-Trips :
    (oids : OidMap) (t : Ty) (vs : List (El t)) (value_oid : Option ℕ) (rest : Bytes)
    → IsOidMap oids
    → Fits (array t) vs
    → check_oid oids (array t) value_oid ≡ ok tt
    → ((w : El t) (rest : Bytes) → Fits t w → Trips oids t none w rest)
    → Trips oids (array t) value_oid vs rest
unfolding recv send init
array-Trips oids t vs value_oid rest m h c ih =
    rw
      (
        c,
        not_null (size_of (array t) vs) h.0,
        append_assoc (write_pg_array 1 0 (type_oid oids t))
            (write_pg_array_dimension (int32 (length vs)) 0
              ++ send_items (size_of t) (send oids t) vs)
            rest,
        append_assoc (write_pg_array_dimension (int32 (length vs)) 0)
            (send_items (size_of t) (send oids t) vs) rest,
      )
      (recv_array-send (Fits t) (size_of t) (send oids t) (recv oids t none) (init t) (size_of-lt t)
        ih (accepts_oid oids t) (type_oid oids t) vs rest (accepts_own_oid oids t)
        (type_oid-lt oids t m) h.1 h.2)

composite-Trips :
    (oids : OidMap) (k : Composite) (ms : Members) (v : Els ms) (value_oid : Option ℕ)
    (rest : Bytes)
    → Fits (composite k ms) v
    → check_oid oids (composite k ms) value_oid ≡ ok tt
    → recv_members oids ms (init_members ms) (send_members oids ms v ++ rest) ≡ ok (v, rest)
    → Trips oids (composite k ms) value_oid v rest
unfolding recv send init
composite-Trips oids k ms v value_oid rest h c ih =
    rw
      (
        c,
        not_null (size_of (composite k ms) v) h.0,
        append_assoc (write_integral 4 (int32 (fields_number ms))) (send_members oids ms v) rest,
        read_and_verify_header-append (int32 (fields_number ms)) (send_members oids ms v ++ rest)
            (omega arith),
      )
      ih

member-Trips :
    (oids : OidMap) (t : Ty) (ms : Members) (v : El t) (vs : Els ms) (rest : Bytes)
    → IsOidMap oids
    → Fits t v
    → ((rest : Bytes) → Trips oids t (some (type_oid oids t)) v rest)
    → recv_members oids ms (init_members ms) (send_members oids ms vs ++ rest) ≡ ok (vs, rest)
    → recv_members oids
        (member t ms)
        (init_members (member t ms))
        (send_members oids (member t ms) (v, vs) ++ rest)
      ≡ ok ((v, vs), rest)
unfolding recv send init
member-Trips oids t ms v vs rest m h trip ih =
    rw
      (
        append_assoc (frame (type_oid oids t) (size_of t v) (send oids t v))
            (send_members oids ms vs) rest,
        recv_frame-append (λ value_oid. recv oids t (some value_oid)) (init t) (type_oid oids t)
            (size_of t v) (send oids t v) (send_members oids ms vs ++ rest) (type_oid-lt oids t m)
            (size_of-lt t v h),
        trip (send_members oids ms vs ++ rest),
        ih,
      )
      refl

end-Trips :
    (oids : OidMap) (rest : Bytes)
    → recv_members oids end (init_members end) (send_members oids end tt ++ rest) ≡ ok (tt, rest)
unfolding recv send init
end-Trips oids rest = refl

mutual
  Ty-Trips :
      (oids : OidMap) (t : Ty) (v : El t) (value_oid : Option ℕ) (rest : Bytes)
      → IsOidMap oids
      → Fits t v
      → check_oid oids t value_oid ≡ ok tt
      → Trips oids t value_oid v rest
  Ty-Trips oids (scalar s) v value_oid rest m h c = scalar-Trips oids s v value_oid rest h c
  Ty-Trips oids (nullable t) v value_oid rest m h c =
      nullable-Trips oids t v value_oid rest h c
        (λ w g. Ty-Trips oids t w none rest m g (check_no_oid oids t))
  Ty-Trips oids (array t) vs value_oid rest m h c =
      array-Trips oids t vs value_oid rest m h c
        (λ w rest' g. Ty-Trips oids t w none rest' m g (check_no_oid oids t))
  Ty-Trips oids (composite k ms) v value_oid rest m h c =
      composite-Trips oids k ms v value_oid rest h c (Members-Trips oids ms v rest m h.2)

  Members-Trips :
      (oids : OidMap) (ms : Members) (v : Els ms) (rest : Bytes)
      → IsOidMap oids
      → FitsMembers ms v
      → recv_members oids ms (init_members ms) (send_members oids ms v ++ rest) ≡ ok (v, rest)
  Members-Trips oids end v rest m h = end-Trips oids rest
  Members-Trips oids (member t ms) v rest m h =
      member-Trips oids t ms v.0 v.1 rest m h.0
        (λ rest'. Ty-Trips oids t v.0 (some (type_oid oids t)) rest' m h.0 (check_own_oid oids t))
        (Members-Trips oids ms v.1 rest m h.1)

-- A value of any type that fits the wire format is received back from the bytes that `send` wrote,
-- under the type's own oid and the size that `size_of` announced, into a value-initialized object,
-- and the bytes behind it are left in the stream.
pub recv-send :
    (oids : OidMap) (t : Ty) (v : El t) (rest : Bytes)
    → IsOidMap oids
    → Fits t v
    → recv oids t (some (type_oid oids t)) (size_of t v) (init t) (send oids t v ++ rest)
      ≡ ok (v, rest)
recv-send oids t v rest m h =
    Ty-Trips oids t v (some (type_oid oids t)) rest m h (check_own_oid oids t)
