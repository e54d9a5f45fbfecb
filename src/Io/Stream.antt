-- ===== src/Io/Stream.antt =====
-- include/ozo/detail/istream.h, detail/ostream.h, impl/read.h and impl/write.h. An input stream is
-- the bytes not read yet (between `gptr` and `egptr`); an output stream grows a byte vector, so
-- what an operation writes is the bytes that it appends. Writing to memory does not fail.
pub mod RoundTrip
pub mod Buffers
use ozo.Prelude.{
  ℕ, zero, suc, ◌≡◌, Bool, not, true, false, [], ◌∷◌, ◌++◌, ◌==◌, if◌then◌else◌, Bytes,
}
use ozo.Prelude.Result.{Result, ok, err, ◌>>=◌}
use ozo.Io.Endian.{raw, typed, convert_to_big_endian, convert_from_big_endian}

-- What deserialization throws: `system_error` with an `error::code`, `std::invalid_argument`,
-- `std::range_error` (three messages) and the `std::length_error` of `resize`.
pub data Failure : Type 0 where
  unexpected_eof oid_type_mismatch unexpected_null : Failure
  size_mismatch dimensions_count fields_count row_size no_column : Failure
  length_error : Failure

abbrev pub Io {ℓ} : Type ℓ → Type ℓ
Io A = Result Failure (A × Bytes)

-- `in.read(data(out), n)`, with `istreambuf_view::xsgetn`.
unfoldable pub read_raw : ℕ → Bytes → Io Bytes
read_raw zero bytes = ok ([], bytes)
read_raw (suc n) [] = err unexpected_eof
read_raw (suc n) (b ∷ bytes) = do (out, rest) ← read_raw n bytes; ok (b ∷ out, rest)

-- `read` of an integer of size 1: `in.get()`.
unfoldable pub read_char : Bytes → Io ℕ
read_char [] = err unexpected_eof
read_char (b ∷ bytes) = ok (b, bytes)

-- `read` of a larger integer.
unfoldable pub read_integral : ℕ → Bytes → Io ℕ
read_integral size bytes = do
  (buf, rest) ← read_raw size bytes
  ok (convert_from_big_endian size (typed buf), rest)

unfoldable pub read_bool : Bytes → Io Bool
read_bool bytes = do (tmp, rest) ← read_char bytes; ok (not (tmp == 0), rest)

unfoldable pub write_char : ℕ → Bytes
write_char value = value ∷ []

unfoldable pub write_integral : ℕ → ℕ → Bytes
write_integral size value = raw size (convert_to_big_endian size value)

unfoldable pub write_bool : Bool → Bytes
write_bool value = write_char (if value then 1 else 0)
