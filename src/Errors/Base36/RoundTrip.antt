-- ===== src/Errors/Base36/RoundTrip.antt =====
-- `b36tol` reads back what `ltob36` prints.
use mathlib.Core.List.{reverse, reverse-cons, concat-ne-nil}
use native.Mathlib.Nat.{pow-suc}
use ozo.Prelude.{
  ℕ, zero, suc, ◌+◌, ◌*◌, ◌/◌, ◌%◌, ◌^◌, ◌<◌, ◌≡◌, ◌≢◌, refl, sym, ap, ◌∙◌, inl, inr, false, [],
  ◌∷◌, ◌++◌, some, arith, Bytes, ltb, All, Bool-cases, if◌then◌else◌,
}
use ozo.Errors.Base36.{
  digit_char, push_digits, ltob36, digit36, digits36, skip_space, to_long, signed_digits, b36tol,
}

abbrev pub IsDigit : ℕ → Type 0
IsDigit c = (n : ℕ) × (digit36 c ≡ some n)

digit36-digit_char : (d : ℕ) → d < 36 → digit36 (digit_char d) ≡ some d
unfolding digit36 digit_char
digit36-digit_char d h = ground arith

digits36-append :
    (acc : ℕ) (xs : Bytes) (c d : ℕ)
    → All IsDigit xs
    → digit36 c ≡ some d
    → digits36 acc (xs ++ c ∷ []) ≡ digits36 acc xs * 36 + d
unfolding digits36
digits36-append acc [] c d h e = rw (e, digits36) refl
digits36-append acc (x ∷ xs) c d h e =
    let rest = digits36-append (acc * 36 + h.0.0) xs c d h.1 e in rw (h.0.1, digits36) rest

All-append {ℓ} : (P : ℕ → Type ℓ) (xs ys : Bytes) → All P xs → All P ys → All P (xs ++ ys)
All-append P [] ys h k = k
All-append P (x ∷ xs) ys h k = (h.0, All-append P xs ys h.1 k)

All-reverse {ℓ} : (P : ℕ → Type ℓ) (xs : Bytes) → All P xs → All P (reverse xs)
All-reverse P [] h = tt
All-reverse P (x ∷ xs) h =
    rw (reverse-cons x xs) (All-append P (reverse xs) (x ∷ []) (All-reverse P xs h.1) (h.0, tt))

push_digits-IsDigit : (fuel u : ℕ) → All IsDigit (push_digits fuel u)
unfolding push_digits
push_digits-IsDigit zero u = tt
push_digits-IsDigit (suc fuel) u = (
  (u % 36, digit36-digit_char (u % 36) (omega arith)),
  ground (arith, push_digits-IsDigit fuel (u / 36)),
)

one_digit : (u : ℕ) → ltb 0 (u / 36) ≡ false → digits36 0 [] * 36 + u % 36 ≡ u
unfolding digits36
one_digit u e = ground arith

digits36-push_digits : (fuel u : ℕ) → u < 36 ^ fuel → digits36 0 (reverse (push_digits fuel u)) ≡ u
unfolding push_digits
digits36-push_digits zero u h = unfold digits36 in omega arith
digits36-push_digits (suc fuel) u h =
    let last = digit36-digit_char (u % 36) (omega arith) in
    elim (Bool-cases (ltb 0 (u / 36))) [
      | inl e ↦ rw e (
          ap (digits36 0) (reverse-cons (digit_char (u % 36)) (push_digits fuel (u / 36)))
          ∙ digits36-append 0 (reverse (push_digits fuel (u / 36))) (digit_char (u % 36)) (u % 36)
              (All-reverse IsDigit (push_digits fuel (u / 36)) (push_digits-IsDigit fuel (u / 36)))
              last
          ∙ omega (arith, digits36-push_digits fuel (u / 36) (omega (arith, pow-suc 36 fuel))))
      | inr e ↦ rw e (digits36-append 0 [] (digit_char (u % 36)) (u % 36) tt last ∙ one_digit u e)
    ]

-- No digit is white space or a sign.
pub signed_digits-IsDigit :
    (cs : Bytes) → All IsDigit cs → cs ≢ [] → b36tol cs ≡ to_long false (digits36 0 cs)
unfolding b36tol skip_space signed_digits digit36
signed_digits-IsDigit [] h ne = absurd (ne refl)
signed_digits-IsDigit (c ∷ cs) h ne = ground (arith, h.0.1)

push_digits-ne-nil : (fuel u : ℕ) → reverse (push_digits (suc fuel) u) ≢ []
unfolding push_digits
push_digits-ne-nil fuel u e =
    let rest = if ltb 0 (u / 36) then push_digits fuel (u / 36) else [] in
    concat-ne-nil (digit_char (u % 36)) (reverse rest)
      (sym (reverse-cons (digit_char (u % 36)) rest) ∙ e)

to_long_small : (u : ℕ) → u < 2 ^ 63 → to_long false u ≡ u
unfolding to_long
to_long_small u h = ground arith

-- A number below 2 ^ 63 printed in base 36 is read back, and 13 rounds of the loop print it whole.
pub b36tol-ltob36 : (u : ℕ) → u < 2 ^ 63 → b36tol (ltob36 u) ≡ u
unfolding ltob36
b36tol-ltob36 u h =
    signed_digits-IsDigit (reverse (push_digits 13 u))
      (All-reverse IsDigit (push_digits 13 u) (push_digits-IsDigit 13 u)) (push_digits-ne-nil 12 u)
    ∙ ap (to_long false) (digits36-push_digits 13 u (omega arith))
    ∙ to_long_small u h
