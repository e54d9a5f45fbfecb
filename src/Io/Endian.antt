-- ===== src/Io/Endian.antt =====
-- include/ozo/detail/endian.h and detail/typed_buffer.h on a little-endian host: a T of `w` bytes
-- is a number below 256 ^ w, and its object representation lists the low byte first.
pub mod Swap
use Prim.Native.Nat.{bit_or}
use native.Mathlib.Nat.{pow-suc}
use ozo.Prelude.{
  ℕ, zero, suc, ◌+◌, ◌*◌, ◌/◌, ◌%◌, ◌^◌, ◌<◌, ◌≡◌, refl, [], ◌∷◌, ◌++◌, arith, length, Bytes,
  IsBytes,
}

-- `value >> N * CHAR_BIT & 0xff`
abbrev field : ℕ → ℕ → ℕ
field value n = value / 2 ^ (8 * n) % 256

-- The fold over `|` in `byte_order_swap`: `rest` operands are left, the next one is number `n`.
swap_fold : ℕ → ℕ → ℕ → ℕ
swap_fold value zero n = 0
swap_fold value (suc rest) n =
    bit_or (field value n * 2 ^ (8 * rest)) (swap_fold value rest (suc n))

unfoldable pub byte_order_swap : ℕ → ℕ → ℕ
unfolding swap_fold
byte_order_swap size value = swap_fold value size 0

-- The host is little-endian: `convert_to_big_endian` and `convert_from_big_endian` both swap.
unfoldable pub convert_to_big_endian : ℕ → ℕ → ℕ
unfolding byte_order_swap
convert_to_big_endian = byte_order_swap

unfoldable pub convert_from_big_endian : ℕ → ℕ → ℕ
unfolding byte_order_swap
convert_from_big_endian = byte_order_swap

-- `typed_buffer<T>`: `raw` of a `typed`, and back.
unfoldable pub raw : ℕ → ℕ → Bytes
raw zero value = []
raw (suc size) value = value % 256 ∷ raw size (value / 256)

unfoldable pub typed : Bytes → ℕ
typed [] = 0
typed (b ∷ bs) = b + 256 * typed bs

pub length-raw : (size value : ℕ) → length (raw size value) ≡ size
unfolding raw
length-raw zero value = refl
length-raw (suc size) value = omega (arith, length-raw size (value / 256))

pub raw-IsBytes : (size value : ℕ) → IsBytes (raw size value)
unfolding raw
raw-IsBytes zero value = tt
raw-IsBytes (suc size) value = (omega arith, raw-IsBytes size (value / 256))

pub typed-lt : (bs : Bytes) → IsBytes bs → typed bs < 256 ^ length bs
unfolding typed
typed-lt [] h = omega arith
typed-lt (b ∷ bs) h = omega (arith, h.0, typed-lt bs h.1, pow-suc 256 (length bs))

pub raw-typed : (bs : Bytes) → IsBytes bs → raw (length bs) (typed bs) ≡ bs
unfolding raw typed
raw-typed [] h = refl
raw-typed (b ∷ bs) h =
    let low : (b + 256 * typed bs) % 256 ≡ b = omega (arith, h.0) in
    let high : (b + 256 * typed bs) / 256 ≡ typed bs = omega (arith, h.0) in
    rw (low, high, raw-typed bs h.1) refl

pub typed-raw : (size value : ℕ) → value < 256 ^ size → typed (raw size value) ≡ value
unfolding raw typed
typed-raw zero value h = omega arith
typed-raw (suc size) value h =
    omega (arith, typed-raw size (value / 256) (omega (arith, pow-suc 256 size)), pow-suc 256 size)

pub typed-append : (xs : Bytes) (b : ℕ) → typed (xs ++ b ∷ []) ≡ typed xs + b * 256 ^ length xs
unfolding typed
typed-append [] b = omega arith
typed-append (x ∷ xs) b = rw (pow-suc 256 (length xs)) (omega (arith, typed-append xs b))
