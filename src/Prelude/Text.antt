-- ===== src/Prelude/Text.antt =====
-- Text as bytes: the literals of the source, and `std::to_string` of an unsigned number.
use Prim.Native.Char.{code}
use Prim.Native.String.{String}
use mathlib.Core.Path.{◌≡◌, refl}
use mathlib.Core.Bool.{Bool, true, false, ◌&&◌}
use mathlib.Core.List.{List, [], ◌∷◌, ◌++◌}
use Prim.Native.Nat.{ℕ, zero, suc, ◌+◌, ◌-◌, ◌/◌, ◌%◌, ◌*◌}
use mathlib.Core.Logic.{◌↔◌}
use native.Mathlib.Omega.{arith}
use ozo.Prelude.Tests.{◌==◌, if◌then◌else◌}

-- The bytes of an ASCII literal.
abbrev pub codes : String → List ℕ
codes String.[] = []
codes (String.◌∷◌ c s) = code c ∷ codes s

unfoldable pub bytes_eq : List ℕ → List ℕ → Bool
bytes_eq [] [] = true
bytes_eq (x ∷ xs) (y ∷ ys) = x == y && bytes_eq xs ys
bytes_eq _ _ = false

pub bytes_eq_iff : (xs ys : List ℕ) → (bytes_eq xs ys ≡ true) ↔ (xs ≡ ys)
unfolding bytes_eq
bytes_eq_iff (x ∷ xs) (y ∷ ys) = ground (arith, bytes_eq_iff xs ys)
bytes_eq_iff _ _ = ground arith

pub bytes_eq_self : (xs : List ℕ) → bytes_eq xs xs ≡ true
bytes_eq_self xs = (bytes_eq_iff xs xs).1 refl

-- The decimal digits of `n`, in at most `fuel` of them.
unfoldable pub decimal : ℕ → ℕ → List ℕ
decimal zero n = []
decimal (suc fuel) n =
    let head = decimal fuel (n / 10) in (if n / 10 == 0 then [] else head) ++ (b'0' + n % 10) ∷ []

-- A `std::size_t` or an `unsigned int` has at most 20 digits.
unfoldable pub to_string : ℕ → List ℕ
to_string = decimal 20

-- The number that decimal digits stand for.
unfoldable pub from_decimal : ℕ → List ℕ → ℕ
from_decimal acc [] = acc
from_decimal acc (c ∷ cs) = from_decimal (acc * 10 + (c - b'0')) cs
