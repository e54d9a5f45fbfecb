-- ===== src/Io/Recv.antt =====
-- include/ozo/io/recv.h, and the `recv` of io/array.h and io/composite.h. `recv` is given the object
-- to receive into, and returns it with the bytes that are left in the stream, or what it throws;
-- what a failed call leaves in the object is not modelled.
use ozo.Prelude.{
  ℕ, ◌-◌, ◌^◌, Bool, not, ◌&&◌, List, [], ◌∷◌, ◌++◌, Option, none, some, Bytes, length, take,
  replicate, leb, ◌==◌, if◌then◌else◌,
}
use ozo.Prelude.Result.{Result, ok, ◌>>=◌, ◌>>◌, throw_if}
use ozo.Io.Types.{
  Scalar, boolean, character, bytea, uuid, int8, int4, int2, oid, float8, float4, text, name, Repr,
  Ty, scalar, nullable, array, composite, Members, end, member, El, Els, init,
}
use ozo.Io.Stream.{
  Failure, oid_type_mismatch, unexpected_null, size_mismatch, dimensions_count, fields_count,
  length_error, Io, read_raw, read_char, read_integral, read_bool,
}
use ozo.Io.OidMap.{OidMap, accepts_oid}
use ozo.Io.SizeOf.{int32, null_state_size}
use ozo.Io.Send.{fields_number}

-- A negative `int32_t`
abbrev pub is_negative : ℕ → Bool
is_negative n = leb (2 ^ 31) n

-- `recv_impl` of a type of dynamic size: `out.resize(size)`, which throws where a negative `size`
-- becomes a huge `size_t`, then `read`
unfoldable pub recv_dynamic : ℕ → Bytes → Io Bytes
recv_dynamic size bytes = do throw_if (is_negative size) length_error; read_raw size bytes

-- `recv_impl` of a type of static size
abbrev recv_static {ℓ} : {A : Type ℓ} → ℕ → ℕ → Io A → Io A
recv_static size type_size read = do throw_if (not (size == type_size)) size_mismatch; read

unfoldable pub recv_scalar : (s : Scalar) → ℕ → Bytes → Io (Repr s)
recv_scalar boolean size bytes = recv_static size 1 (read_bool bytes)
recv_scalar character size bytes = recv_static size 1 (read_char bytes)
recv_scalar bytea size bytes = recv_dynamic size bytes
recv_scalar uuid size bytes = recv_static size 16 (read_raw 16 bytes)
recv_scalar int8 size bytes = recv_static size 8 (read_integral 8 bytes)
recv_scalar int4 size bytes = recv_static size 4 (read_integral 4 bytes)
recv_scalar int2 size bytes = recv_static size 2 (read_integral 2 bytes)
recv_scalar oid size bytes = recv_static size 4 (read_integral 4 bytes)
recv_scalar float8 size bytes = recv_static size 8 (read_integral 8 bytes)
recv_scalar float4 size bytes = recv_static size 4 (read_integral 4 bytes)
recv_scalar text size bytes = recv_dynamic size bytes
recv_scalar name size bytes = recv_dynamic size bytes

-- The checks of `detail::recv`. An oid of the type `null_oid_t` (`none`) is not checked.
unfoldable pub check_oid : OidMap → Ty → Option ℕ → Result Failure (Unit {0})
check_oid oids t none = ok tt
check_oid oids t (some value) = throw_if (not (accepts_oid oids t value)) oid_type_mismatch

abbrev pub check_not_null : ℕ → Result Failure (Unit {0})
check_not_null size = throw_if (size == null_state_size) unexpected_null

-- `init_nullable` allocates a value if there is none.
unfoldable pub init_nullable : (t : Ty) → Option (El t) → El t
init_nullable t none = init t
init_nullable t (some v) = v

-- `out.resize(n)` keeps the first items.
unfoldable pub resize {ℓ} : {A : Type ℓ} → A → ℕ → List A → List A
resize a n xs = take n xs ++ replicate (n - length xs) a

-- `for (auto& item : out)`
unfoldable pub recv_items {ℓ} : {A : Type ℓ} → (A → Bytes → Io A) → List A → Bytes → Io (List A)
recv_items item [] bytes = ok ([], bytes)
recv_items item (v ∷ vs) bytes = do
  (w, rest) ← item v bytes
  (ws, rest') ← recv_items item vs rest
  ok (w ∷ ws, rest')

-- `recv_data_frame`, given `recv`
unfoldable pub recv_data_frame {ℓ} : {A : Type ℓ} → (ℕ → A → Bytes → Io A) → A → Bytes → Io A
recv_data_frame receive out bytes = do (size, rest) ← read_integral 4 bytes; receive size out rest

-- `recv_frame`, given `recv`
unfoldable pub recv_frame {ℓ} : {A : Type ℓ} → (ℕ → ℕ → A → Bytes → Io A) → A → Bytes → Io A
recv_frame receive out bytes = do
  (value_oid, rest) ← read_integral 4 bytes
  recv_data_frame (receive value_oid) out rest

-- The items of an array behind its dimension header.
unfoldable pub recv_dimension {ℓ} :
    {A : Type ℓ} → A → (A → Bytes → Io A) → List A → Bytes → Io (List A)
recv_dimension fresh item out bytes = do
  (size, rest) ← read_integral 4 bytes
  (index, rest') ← read_integral 4 rest
  let received = recv_items item (resize fresh size out) rest'
  if size == 0 then ok (out, rest') else (do throw_if (is_negative size) length_error; received)

-- `recv_array_impl::apply`
unfoldable pub recv_array {ℓ} :
    {A : Type ℓ} → (ℕ → Bool) → A → (A → Bytes → Io A) → List A → Bytes → Io (List A)
recv_array accepts fresh item out bytes = do
  (count, rest) ← read_integral 4 bytes
  (dataoffset, rest') ← read_integral 4 rest
  (elemtype, rest'') ← read_integral 4 rest'
  throw_if (not (leb count 1) && not (is_negative count)) dimensions_count
  throw_if (not (accepts elemtype)) oid_type_mismatch
  if count == 1 then recv_dimension fresh item out rest'' else ok (out, rest'')

-- `read_and_verify_header`
unfoldable pub read_and_verify_header : ℕ → Bytes → Result Failure Bytes
read_and_verify_header fields bytes = do
  (count, rest) ← read_integral 4 bytes
  throw_if (not (count == fields)) fields_count
  ok rest

unfoldable mutual
  pub recv : OidMap → (t : Ty) → Option ℕ → ℕ → El t → Bytes → Io (El t)
  recv oids (scalar s) value_oid size out bytes = do
    check_oid oids (scalar s) value_oid
    check_not_null size
    recv_scalar s size bytes
  recv oids (array t) value_oid size out bytes = do
    check_oid oids (array t) value_oid
    check_not_null size
    recv_array (accepts_oid oids t) (init t) (recv_data_frame (recv oids t none)) out bytes
  recv oids (composite k ms) value_oid size out bytes = do
    check_oid oids (composite k ms) value_oid
    check_not_null size
    rest ← read_and_verify_header (int32 (fields_number ms)) bytes
    recv_members oids ms out rest
  -- behind its checks, a nullable's value is received with no further check of the oid
  recv oids (nullable t) value_oid size out bytes =
      let received = recv oids t none size (init_nullable t out) bytes in
      if size == null_state_size
      then ok (none, bytes)
      else (do check_oid oids (nullable t) value_oid; (v, rest) ← received; ok (some v, rest))

  pub recv_members : OidMap → (ms : Members) → Els ms → Bytes → Io (Els ms)
  recv_members oids end out bytes = ok (tt, bytes)
  recv_members oids (member t ms) out bytes = do
    (v, rest) ← recv_frame (λ value_oid. recv oids t (some value_oid)) out.0 bytes
    (vs, rest') ← recv_members oids ms out.1 rest
    ok ((v, vs), rest')
