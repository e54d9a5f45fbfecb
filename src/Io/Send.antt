-- ===== src/Io/Send.antt =====
-- include/ozo/io/send.h, and the `send` of io/array.h and io/composite.h: the bytes that an object
-- puts into the output stream.
use ozo.Prelude.{ℕ, ◌+◌, List, [], ◌∷◌, ◌++◌, none, some, Bytes, length}
use ozo.Io.Types.{
  Scalar, boolean, character, bytea, uuid, int8, int4, int2, oid, float8, float4, text, name, Repr,
  Ty, scalar, nullable, array, composite, Members, end, member, El, Els,
}
use ozo.Io.Stream.{write_char, write_integral, write_bool}
use ozo.Io.OidMap.{OidMap, type_oid}
use ozo.Io.SizeOf.{int32, size_of}

-- `send_impl`: `write`
unfoldable pub send_scalar : (s : Scalar) → Repr s → Bytes
send_scalar boolean v = write_bool v
send_scalar character v = write_char v
send_scalar bytea v = v
send_scalar uuid v = v
send_scalar int8 v = write_integral 8 v
send_scalar int4 v = write_integral 4 v
send_scalar int2 v = write_integral 2 v
send_scalar oid v = write_integral 4 v
send_scalar float8 v = write_integral 8 v
send_scalar float4 v = write_integral 4 v
send_scalar text v = v
send_scalar name v = v

-- `write` of a `pg_array` and of a `pg_array_dimension`, an `int32_t` or `oid_t` each
unfoldable pub write_pg_array : ℕ → ℕ → ℕ → Bytes
write_pg_array dimensions_count dataoffset elemtype =
    write_integral 4 dimensions_count ++ (write_integral 4 dataoffset ++ write_integral 4 elemtype)

unfoldable pub write_pg_array_dimension : ℕ → ℕ → Bytes
write_pg_array_dimension size index = write_integral 4 size ++ write_integral 4 index

-- `send_data_frame` and `send_frame`, given the object's oid, its `size_of` and what `send` writes
unfoldable pub data_frame : ℕ → Bytes → Bytes
data_frame size sent = write_integral 4 size ++ sent

unfoldable pub frame : ℕ → ℕ → Bytes → Bytes
frame value_oid size sent = write_integral 4 value_oid ++ data_frame size sent

-- `boost::for_each(in, send_data_frame)`
unfoldable pub send_items {ℓ} : {A : Type ℓ} → (A → ℕ) → (A → Bytes) → List A → Bytes
send_items size sent [] = []
send_items size sent (v ∷ vs) = data_frame (size v) (sent v) ++ send_items size sent vs

-- `fields_number`
unfoldable pub fields_number : Members → ℕ
fields_number end = 0
fields_number (member t ms) = 1 + fields_number ms

unfoldable mutual
  pub send : OidMap → (t : Ty) → El t → Bytes
  send oids (scalar s) v = send_scalar s v
  send oids (nullable t) none = []
  send oids (nullable t) (some v) = send oids t v
  send oids (array t) vs =
      write_pg_array 1 0 (type_oid oids t)
      ++ (write_pg_array_dimension (int32 (length vs)) 0 ++ send_items (size_of t) (send oids t) vs)
  send oids (composite _ ms) v =
      write_integral 4 (int32 (fields_number ms)) ++ send_members oids ms v

  pub send_members : OidMap → (ms : Members) → Els ms → Bytes
  send_members oids end v = []
  send_members oids (member t ms) v =
      frame (type_oid oids t) (size_of t v.0) (send oids t v.0) ++ send_members oids ms v.1
