-- ===== src/Io/Stream/RoundTrip.antt =====
-- What is written is read back, and nothing more of the stream is consumed.
use ozo.Prelude.{
  ℕ, zero, suc, ◌^◌, ◌<◌, ◌≡◌, refl, ap, Bool, true, false, [], ◌∷◌, ◌++◌, arith, length, Bytes,
}
use ozo.Prelude.Result.{ok, err}
use ozo.Io.Endian.{raw, convert_to_big_endian, length-raw}
use ozo.Io.Endian.Swap.{convert_from_big_endian-raw}
use ozo.Io.Stream.{
  unexpected_eof, read_raw, read_char, read_integral, read_bool, write_char, write_integral,
  write_bool,
}

pub read_raw-append :
    (size : ℕ) (bs rest : Bytes) → length bs ≡ size → read_raw size (bs ++ rest) ≡ ok (bs, rest)
unfolding read_raw
read_raw-append zero [] rest h = refl
read_raw-append (suc n) [] rest h = absurd (omega arith)
read_raw-append zero (b ∷ bs) rest h = absurd (omega arith)
read_raw-append (suc n) (b ∷ bs) rest h = rw (read_raw-append n bs rest (omega arith))

-- A stream that is too short is an error.
pub read_raw_short :
    (size : ℕ) (bs : Bytes) → length bs < size → read_raw size bs ≡ err unexpected_eof
unfolding read_raw
read_raw_short zero bs h = absurd (omega arith)
read_raw_short (suc n) [] h = refl
read_raw_short (suc n) (b ∷ bs) h = rw (read_raw_short n bs (omega arith))

pub length-write_integral : (size value : ℕ) → length (write_integral size value) ≡ size
unfolding write_integral
length-write_integral size value = length-raw size (convert_to_big_endian size value)

pub read-write_integral :
    (size value : ℕ) (rest : Bytes)
    → value < 256 ^ size
    → read_integral size (write_integral size value ++ rest) ≡ ok (value, rest)
unfolding read_integral write_integral
read-write_integral size value rest h =
    rw
      (read_raw-append size (raw size (convert_to_big_endian size value)) rest
        (length-raw size (convert_to_big_endian size value)))
      (ap (λ (v : ℕ). ok (v, rest)) (convert_from_big_endian-raw size value h))

pub read-write_bool :
    (value : Bool) (rest : Bytes) → read_bool (write_bool value ++ rest) ≡ ok (value, rest)
unfolding read_bool write_bool read_char write_char
read-write_bool true rest = refl
read-write_bool false rest = refl
