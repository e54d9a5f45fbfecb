-- ===== src/Errors/Base36.antt =====
-- include/ozo/detail/base36.h. A `long` is its bit pattern, a number below 2 ^ 64.
pub mod RoundTrip
use mathlib.Core.List.{reverse}
use ozo.Prelude.{
  ℕ, zero, suc, ◌+◌, ◌-◌, ◌*◌, ◌/◌, ◌%◌, ◌^◌, Bool, true, false, ◌&&◌, ◌||◌, [], ◌∷◌, Option, none,
  some, Bytes, ◌==◌, leb, ltb, if◌then◌else◌,
}

-- `d < 10 ? '0' + d : 'A' + d - 10`
unfoldable pub digit_char : ℕ → ℕ
digit_char d = if ltb d 10 then b'0' + d else b'A' + d - 10

-- The `do` loop, which pushes the low digit first; `fuel` bounds its rounds.
unfoldable pub push_digits : ℕ → ℕ → Bytes
push_digits zero u = []
push_digits (suc fuel) u =
    let rest = push_digits fuel (u / 36) in
    digit_char (u % 36) ∷ (if ltb 0 (u / 36) then rest else [])

-- 2 ^ 64 is less than 36 ^ 13.
unfoldable pub ltob36 : ℕ → Bytes
ltob36 u = reverse (push_digits 13 u)

-- `strtol(s, nullptr, 36)`: white space, a sign, and digits up to the first other char.
unfoldable pub digit36 : ℕ → Option ℕ
digit36 c =
    if leb b'0' c && leb c b'9'
    then some (c - b'0')
    else if leb b'A' c && leb c b'Z'
    then some (c - b'A' + 10)
    else if leb b'a' c && leb c b'z'
    then some (c - b'a' + 10)
    else none

unfoldable pub digits36 : ℕ → Bytes → ℕ
digits36 acc [] = acc
digits36 acc (c ∷ cs) = elim (digit36 c) [ none ↦ acc | some d ↦ digits36 (acc * 36 + d) cs ]

abbrev pub is_space : ℕ → Bool
is_space c = c == b' ' || (leb 9 c && leb c 13)

unfoldable pub skip_space : Bytes → Bytes
skip_space [] = []
skip_space (c ∷ cs) = if is_space c then skip_space cs else c ∷ cs

-- Out of range, the result is the nearest `long`.
unfoldable pub to_long : Bool → ℕ → ℕ
to_long false n = if ltb n (2 ^ 63) then n else 2 ^ 63 - 1
to_long true n = if leb n (2 ^ 63) then (2 ^ 64 - n) % 2 ^ 64 else 2 ^ 63

unfoldable pub signed_digits : Bytes → ℕ
signed_digits [] = 0
signed_digits (c ∷ cs) =
    if c == b'-'
    then to_long true (digits36 0 cs)
    else if c == b'+'
    then to_long false (digits36 0 cs)
    else to_long false (digits36 0 (c ∷ cs))

unfoldable pub b36tol : Bytes → ℕ
b36tol s = signed_digits (skip_space s)
