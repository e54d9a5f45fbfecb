-- ===== src/Io/Endian/Swap.antt =====
-- What `byte_order_swap` computes, for every size: the object representation is reversed.
use mathlib.Core.List.{reverse, reverse-cons, reverse-reverse}
use native.Mathlib.Nat.{pow-suc, div-div-eq-div-mul}
use ozo.Prelude.{
  ℕ, zero, suc, ◌+◌, ◌*◌, ◌/◌, ◌%◌, ◌^◌, ◌<◌, ◌≡◌, refl, sym, ap, ◌∙◌, [], ◌∷◌, ◌++◌, arith, length,
  length-append, Bytes, IsBytes,
}
use ozo.Prelude.Bits.{bit_or_disjoint, two_pow_eight}
use ozo.Io.Endian.{
  swap_fold, byte_order_swap, convert_to_big_endian, convert_from_big_endian, raw, typed,
  length-raw, raw-IsBytes, typed-lt, raw-typed, typed-raw, typed-append,
}

length-reverse : (bs : Bytes) → length (reverse bs) ≡ length bs
length-reverse [] = refl
length-reverse (b ∷ bs) =
    omega
      (arith, ap length (reverse-cons b bs), length-append (reverse bs) (b ∷ []), length-reverse bs)

pub length-reverse-raw : (size value : ℕ) → length (reverse (raw size value)) ≡ size
length-reverse-raw size value = length-reverse (raw size value) ∙ length-raw size value

IsBytes-append : (xs ys : Bytes) → IsBytes xs → IsBytes ys → IsBytes (xs ++ ys)
IsBytes-append [] ys h k = k
IsBytes-append (x ∷ xs) ys h k = (h.0, IsBytes-append xs ys h.1 k)

pub IsBytes-reverse : (bs : Bytes) → IsBytes bs → IsBytes (reverse bs)
IsBytes-reverse [] h = tt
IsBytes-reverse (b ∷ bs) h =
    rw (reverse-cons b bs) (IsBytes-append (reverse bs) (b ∷ []) (IsBytes-reverse bs h.1) (h.0, tt))

shift_suc : (value n : ℕ) → value / 256 ^ suc n ≡ value / 256 ^ n / 256
shift_suc value n = rw (pow-suc 256 n) (sym (div-div-eq-div-mul value (256 ^ n) 256))

reversed : ℕ → ℕ → Bytes
reversed size value = reverse (raw size value)

reversed-lt : (size value : ℕ) → typed (reversed size value) < 256 ^ size
unfolding reversed
reversed-lt size value = rw (length-reverse-raw size value) at (
    typed-lt (reverse (raw size value)) (IsBytes-reverse (raw size value) (raw-IsBytes size value)))

typed-reversed :
    (size value : ℕ)
    → typed (reversed (suc size) value)
      ≡ typed (reversed size (value / 256)) + value % 256 * 256 ^ size
unfolding reversed raw
typed-reversed size value = rw (reverse-cons (value % 256) (raw size (value / 256))) (
    rw (length-reverse-raw size (value / 256)) at
      (typed-append (reverse (raw size (value / 256))) (value % 256)))

swap_fold-reversed :
    (value rest n : ℕ) → swap_fold value rest n ≡ typed (reversed rest (value / 256 ^ n))
unfolding swap_fold
swap_fold-reversed value zero n = unfold reversed raw typed in refl
swap_fold-reversed value (suc rest) n =
    let low : swap_fold value rest (suc n) ≡ typed (reversed rest (value / 256 ^ n / 256)) =
      rw (← shift_suc value n) (swap_fold-reversed value rest (suc n)) in
    let join = bit_or_disjoint (8 * rest) (value / 256 ^ n % 256) (swap_fold value rest (suc n)) in
    let bound : swap_fold value rest (suc n) < 2 ^ (8 * rest) =
      rw (low, two_pow_eight rest) (reversed-lt rest (value / 256 ^ n / 256)) in
    rw (two_pow_eight n) (
      join bound
      ∙ rw (two_pow_eight rest, low) (omega (arith, typed-reversed rest (value / 256 ^ n))))

pub byte_order_swap-reverse :
    (size value : ℕ) → byte_order_swap size value ≡ typed (reverse (raw size value))
unfolding byte_order_swap reversed
byte_order_swap-reverse size value =
    let whole : value / 256 ^ 0 ≡ value = omega arith in
    rw whole at (swap_fold-reversed value size 0)

raw-byte_order_swap :
    (size value : ℕ) → raw size (byte_order_swap size value) ≡ reverse (raw size value)
raw-byte_order_swap size value = rw (byte_order_swap-reverse size value) (
    rw (length-reverse-raw size value) at (
      raw-typed (reverse (raw size value))
        (IsBytes-reverse (raw size value) (raw-IsBytes size value))))

pub byte_order_swap_involutive :
    (size value : ℕ)
    → value < 256 ^ size
    → byte_order_swap size (byte_order_swap size value) ≡ value
byte_order_swap_involutive size value h =
    byte_order_swap-reverse size (byte_order_swap size value)
    ∙ ap (λ (bs : Bytes). typed (reverse bs)) (raw-byte_order_swap size value)
    ∙ ap typed (reverse-reverse (raw size value))
    ∙ typed-raw size value h

pub byte_order_swap-lt : (size value : ℕ) → byte_order_swap size value < 256 ^ size
byte_order_swap-lt size value =
    rw (byte_order_swap-reverse size value) (unfold reversed in reversed-lt size value)

-- The conversions undo one another through the object representation.
pub convert_from_big_endian-raw :
    (size value : ℕ)
    → value < 256 ^ size
    → convert_from_big_endian size (typed (raw size (convert_to_big_endian size value))) ≡ value
unfolding convert_from_big_endian convert_to_big_endian
convert_from_big_endian-raw size value h =
    rw (typed-raw size (byte_order_swap size value) (byte_order_swap-lt size value))
      (byte_order_swap_involutive size value h)
