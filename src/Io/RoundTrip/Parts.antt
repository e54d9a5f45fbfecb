-- ===== src/Io/RoundTrip/Parts.antt =====
-- Frames, items and headers: each part of an object is read back as it was written.
use ozo.Prelude.{
  ℕ, zero, suc, ◌-◌, ◌^◌, ◌<◌, ◌≡◌, refl, ap, ◌∙◌, Bool, true, List, [], ◌∷◌, ◌++◌, arith, length,
  All, replicate, append_assoc, Bytes,
}
use ozo.Prelude.Result.{ok}
use ozo.Io.Types.{
  Scalar, boolean, character, bytea, uuid, int8, int4, int2, oid, float8, float4, text, name, Repr,
}
use ozo.Io.Stream.{Io, write_integral, read_char, write_char}
use ozo.Io.Stream.RoundTrip.{read_raw-append, read-write_integral, read-write_bool}
use ozo.Io.SizeOf.{int32, size_of_scalar}
use ozo.Io.Send.{
  send_scalar, data_frame, frame, send_items, write_pg_array, write_pg_array_dimension,
}
use ozo.Io.Recv.{
  recv_dynamic, recv_scalar, recv_data_frame, recv_frame, resize, recv_items, recv_dimension,
  recv_array, read_and_verify_header,
}
use ozo.Io.Fits.{FitsScalar}

recv_dynamic-append :
    (bs rest : Bytes)
    → length bs < 2 ^ 31
    → recv_dynamic (int32 (length bs)) (bs ++ rest) ≡ ok (bs, rest)
unfolding recv_dynamic
recv_dynamic-append bs rest h =
    let whole : int32 (length bs) ≡ length bs = omega arith in
    rw whole (ground (arith, read_raw-append (length bs) bs rest refl))

pub recv-send_scalar :
    (s : Scalar) (v : Repr s) (rest : Bytes)
    → FitsScalar s v
    → recv_scalar s (size_of_scalar s v) (send_scalar s v ++ rest) ≡ ok (v, rest)
unfolding recv_scalar size_of_scalar send_scalar read_char write_char
recv-send_scalar boolean v rest h = read-write_bool v rest
recv-send_scalar character v rest h = refl
recv-send_scalar bytea v rest h = recv_dynamic-append v rest h
recv-send_scalar uuid v rest h = read_raw-append 16 v rest h
recv-send_scalar int8 v rest h = read-write_integral 8 v rest h
recv-send_scalar int4 v rest h = read-write_integral 4 v rest h
recv-send_scalar int2 v rest h = read-write_integral 2 v rest h
recv-send_scalar oid v rest h = read-write_integral 4 v rest h
recv-send_scalar float8 v rest h = read-write_integral 8 v rest h
recv-send_scalar float4 v rest h = read-write_integral 4 v rest h
recv-send_scalar text v rest h = recv_dynamic-append v rest h
recv-send_scalar name v rest h = recv_dynamic-append v rest h

module _ {ℓ} {A : Type ℓ} where
  pub recv_data_frame-append :
      (receive : ℕ → A → Bytes → Io A) (out : A) (size : ℕ) (sent rest : Bytes)
      → size < 2 ^ 32
      → recv_data_frame receive out (data_frame size sent ++ rest) ≡ receive size out (sent ++ rest)
  unfolding recv_data_frame data_frame
  recv_data_frame-append receive out size sent rest h =
      rw
        (
          append_assoc (write_integral 4 size) sent rest,
          read-write_integral 4 size (sent ++ rest) h,
        )
        refl

  pub recv_frame-append :
      (receive : ℕ → ℕ → A → Bytes → Io A) (out : A) (value_oid size : ℕ) (sent rest : Bytes)
      → value_oid < 2 ^ 32
      → size < 2 ^ 32
      → recv_frame receive out (frame value_oid size sent ++ rest)
        ≡ receive value_oid size out (sent ++ rest)
  unfolding recv_frame frame
  recv_frame-append receive out value_oid size sent rest h k =
      rw
        (
          append_assoc (write_integral 4 value_oid) (data_frame size sent) rest,
          read-write_integral 4 value_oid (data_frame size sent ++ rest) h,
        )
        (recv_data_frame-append (receive value_oid) out size sent rest k)

module _ {ℓ} {A : Type ℓ} (fresh : A) (item : A → Bytes → Io A) (out : List A) (bytes : Bytes) where
  -- An empty array leaves the object that is received into as it was.
  pub recv_dimension_empty :
      recv_dimension fresh item out (write_pg_array_dimension 0 0 ++ bytes) ≡ ok (out, bytes)
  unfolding recv_dimension write_pg_array_dimension
  recv_dimension_empty =
      rw
        (
          append_assoc (write_integral 4 0) (write_integral 4 0) bytes,
          read-write_integral 4 0 (write_integral 4 0 ++ bytes) (omega arith),
          read-write_integral 4 0 bytes (omega arith),
        )
        refl

  pub recv_dimension_items :
      (n : ℕ)
      → 0 < n
      → n < 2 ^ 31
      → recv_dimension fresh item out (write_pg_array_dimension n 0 ++ bytes)
        ≡ recv_items item (resize fresh n out) bytes
  unfolding recv_dimension write_pg_array_dimension
  recv_dimension_items n pos small =
      rw
        (
          append_assoc (write_integral 4 n) (write_integral 4 0) bytes,
          read-write_integral 4 n (write_integral 4 0 ++ bytes) (omega arith),
          read-write_integral 4 0 bytes (omega arith),
        )
        (ground arith)

  pub recv_array_header :
      (accepts : ℕ → Bool) (elemtype : ℕ)
      → accepts elemtype ≡ true
      → elemtype < 2 ^ 32
      → recv_array accepts fresh item out (write_pg_array 1 0 elemtype ++ bytes)
        ≡ recv_dimension fresh item out bytes
  unfolding recv_array write_pg_array
  recv_array_header accepts elemtype acc small =
      rw
        (
          append_assoc (write_integral 4 1) (write_integral 4 0 ++ write_integral 4 elemtype) bytes,
          append_assoc (write_integral 4 0) (write_integral 4 elemtype) bytes,
          read-write_integral 4 1 (write_integral 4 0 ++ (write_integral 4 elemtype ++ bytes))
              (omega arith),
          read-write_integral 4 0 (write_integral 4 elemtype ++ bytes) (omega arith),
          read-write_integral 4 elemtype bytes small,
          acc,
        )
        refl

resize-nil {ℓ} : {A : Type ℓ} (a : A) (n : ℕ) → resize a n [] ≡ replicate n a
unfolding resize
resize-nil a zero = refl
resize-nil a (suc n) = let all : suc n - 0 ≡ suc n = omega arith in rw all refl

-- A type of items with its `size_of`, `send`, `recv` and fresh value, that round trips.
module _ {ℓ κ} {A : Type ℓ} (Good : A → Type κ) (size : A → ℕ) (sent : A → Bytes)
    (receive : ℕ → A → Bytes → Io A) (fresh : A) (size-lt : (v : A) → Good v → size v < 2 ^ 32)
    (round_trip : (v : A) (rest : Bytes)
      → Good v
      → receive (size v) fresh (sent v ++ rest) ≡ ok (v, rest)) where
  recv_items-send :
      (vs : List A) (rest : Bytes)
      → All Good vs
      → recv_items
          (recv_data_frame receive)
          (replicate (length vs) fresh)
          (send_items size sent vs ++ rest)
        ≡ ok (vs, rest)
  unfolding recv_items send_items
  recv_items-send [] rest h = refl
  recv_items-send (v ∷ vs) rest h =
      rw
        (
          append_assoc (data_frame (size v) (sent v)) (send_items size sent vs) rest,
          recv_data_frame-append receive fresh (size v) (sent v) (send_items size sent vs ++ rest)
              (size-lt v h.0),
          round_trip v (send_items size sent vs ++ rest) h.0,
          recv_items-send vs rest h.1,
        )
        refl

  recv_dimension-send :
      (vs : List A) (rest : Bytes)
      → length vs < 2 ^ 31
      → All Good vs
      → recv_dimension fresh
          (recv_data_frame receive)
          []
          (write_pg_array_dimension (int32 (length vs)) 0 ++ (send_items size sent vs ++ rest))
        ≡ ok (vs, rest)
  unfolding send_items
  recv_dimension-send [] rest few h = recv_dimension_empty fresh (recv_data_frame receive) [] rest
  recv_dimension-send (v ∷ vs) rest few h =
      let whole : int32 (length (v ∷ vs)) ≡ length (v ∷ vs) = omega arith in
      let bytes = send_items size sent (v ∷ vs) ++ rest in
      rw whole (
        recv_dimension_items fresh (recv_data_frame receive) [] bytes (length (v ∷ vs))
          (omega arith) few
        ∙ ap (λ out. recv_items (recv_data_frame receive) out bytes)
            (resize-nil fresh (length (v ∷ vs)))
        ∙ recv_items-send (v ∷ vs) rest h)

  pub recv_array-send :
      (accepts : ℕ → Bool) (elemtype : ℕ) (vs : List A) (rest : Bytes)
      → accepts elemtype ≡ true
      → elemtype < 2 ^ 32
      → length vs < 2 ^ 31
      → All Good vs
      → recv_array accepts fresh (recv_data_frame receive) [] (
          write_pg_array 1 0 elemtype
          ++ (write_pg_array_dimension (int32 (length vs)) 0 ++ (send_items size sent vs ++ rest)))
        ≡ ok (vs, rest)
  recv_array-send accepts elemtype vs rest acc small few h =
      recv_array_header fresh (recv_data_frame receive) []
        (write_pg_array_dimension (int32 (length vs)) 0 ++ (send_items size sent vs ++ rest))
        accepts elemtype acc small
      ∙ recv_dimension-send vs rest few h

pub read_and_verify_header-append :
    (fields : ℕ) (rest : Bytes)
    → fields < 2 ^ 32
    → read_and_verify_header fields (write_integral 4 fields ++ rest) ≡ ok rest
unfolding read_and_verify_header
read_and_verify_header-append fields rest h =
    rw (read-write_integral 4 fields rest h) (ground arith)
