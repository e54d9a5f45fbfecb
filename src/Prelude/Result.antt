-- ===== src/Prelude/Result.antt =====
-- The outcome of code that may throw: a value, or the exception.
use mathlib.Core.Path.{◌≡◌, refl}
use mathlib.Core.Logic.{◌⊎◌, inl, inr}
use mathlib.Core.Bool.{Bool, true, false}
use ozo.Prelude.Tests.{if◌then◌else◌}

pub data Result {ℓ κ} (E : Type ℓ) (A : Type κ) : Type (ℓ ⊔ κ) where
  err : E → Result E A
  ok : A → Result E A

-- `if (b) throw e;`
abbrev pub throw_if {ℓ} : {E : Type ℓ} → Bool → E → Result E (Unit {0})
throw_if false failure = ok tt
throw_if true failure = err failure

module _ {ℓ} {E : Type ℓ} where
  infixl 5 ◌>>=◌ ◌>>◌
  abbrev pub ◌>>=◌ {κ μ} : {A : Type κ} {B : Type μ} → Result E A → (A → Result E B) → Result E B
  err failure >>= next = err failure
  ok value >>= next = next value

  abbrev pub ◌>>◌ {μ} : {B : Type μ} → Result E (Unit {0}) → Result E B → Result E B
  err failure >> next = err failure
  ok done >> next = next

pub Result-cases {ℓ κ} :
    {E : Type ℓ} {A : Type κ} (r : Result E A) → ((e : E) × (r ≡ err e)) ⊎ ((a : A) × (r ≡ ok a))
Result-cases (err failure) = inl (failure, refl)
Result-cases (ok value) = inr (value, refl)

-- A property of the value, if there is one.
abbrev pub OkHolds {ℓ κ μ} : {E : Type ℓ} {A : Type κ} → (A → Type μ) → Result E A → Type μ
OkHolds P (err failure) = Unit
OkHolds P (ok value) = P value

module _ {ℓ κ μ} {E : Type ℓ} {B : Type κ} (P : B → Type μ) where
  pub >>=-OkHolds {ν} :
      {A : Type ν} (m : Result E A) (f : A → Result E B)
      → ((a : A) → m ≡ ok a → OkHolds P (f a))
      → OkHolds P (m >>= f)
  >>=-OkHolds (err failure) f g = tt
  >>=-OkHolds (ok value) f g = g value refl

  pub >>-OkHolds :
      (m : Result E (Unit {0})) (next : Result E B)
      → (m ≡ ok tt → OkHolds P next)
      → OkHolds P (m >> next)
  >>-OkHolds (err failure) next g = tt
  >>-OkHolds (ok value) next g = g refl

  pub throw_if-OkHolds :
      (b : Bool) (failure : E) (next : Result E B)
      → (b ≡ false → OkHolds P next)
      → OkHolds P (throw_if b failure >> next)
  throw_if-OkHolds true failure next g = tt
  throw_if-OkHolds false failure next g = g refl

  pub if-OkHolds :
      (b : Bool) (x y : Result E B)
      → (b ≡ true → OkHolds P x)
      → (b ≡ false → OkHolds P y)
      → OkHolds P (if b then x else y)
  if-OkHolds true x y g h = g refl
  if-OkHolds false x y g h = h refl

  pub OkHolds-implies {ν} :
      (Q : B → Type ν) (r : Result E B) → ((b : B) → P b → Q b) → OkHolds P r → OkHolds Q r
  OkHolds-implies Q (err failure) g h = tt
  OkHolds-implies Q (ok value) g h = g value h

  pub OkHolds-all : (r : Result E B) → ((b : B) → r ≡ ok b → P b) → OkHolds P r
  OkHolds-all (err failure) h = tt
  OkHolds-all (ok value) h = h value refl
