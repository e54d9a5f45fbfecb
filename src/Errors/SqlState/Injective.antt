-- ===== src/Errors/SqlState/Injective.antt =====
-- The codes of different SQL states, and the states that the enumeration does not list.
use mathlib.Core.Bool.{true, false, ◌&&◌}
use mathlib.Core.Path.{subst}
use native.Mathlib.Nat.{pow-suc}
use ozo.Prelude.{
  ◌≡◌, refl, sym, ap, ◌∙◌, ◌≢◌, ℕ, ◌+◌, ◌-◌, ◌*◌, ◌%◌, ◌^◌, ◌<◌, [], ◌∷◌, ◌++◌, none, some, Bytes,
  leb, lt→ltb, All, arith, length, ◌||◌, if◌then◌else◌,
}
use ozo.Prelude.Text.{codes}
use ozo.Errors.Base36.{ltob36, digits36, digit36, to_long}
use ozo.Errors.Base36.RoundTrip.{b36tol-ltob36, signed_digits-IsDigit, IsDigit}
use ozo.Errors.SqlState.{enumerators, case_of, message, result_error, int_to_long}
use ozo.Errors.Codes.{ErrorCode}

-- The chars that PostgreSQL writes an SQLSTATE with: digits and capital letters.
abbrev pub IsStateChar : ℕ → Type 0
IsStateChar c = ((leb b'0' c && leb c b'9') || (leb b'A' c && leb c b'Z')) ≡ true

-- The digit of a state char.
state_digit : ℕ → ℕ
state_digit c = if leb c b'9' then c - b'0' else c - b'A' + 10

digit36-state_digit :
    (c : ℕ) → IsStateChar c → (digit36 c ≡ some (state_digit c)) × (state_digit c < 36)
unfolding digit36 state_digit
digit36-state_digit c h = (ground arith, ground arith)

state_digit_injective :
    (c d : ℕ) → IsStateChar c → IsStateChar d → state_digit c ≡ state_digit d → c ≡ d
unfolding state_digit
state_digit_injective c d h k e = ground arith

All-IsDigit : (s : Bytes) → All IsStateChar s → All IsDigit s
All-IsDigit [] h = tt
All-IsDigit (c ∷ s) h = ((state_digit c, (digit36-state_digit c h.0).0), All-IsDigit s h.1)

digits36-lt :
    (s : Bytes) (acc bound : ℕ)
    → All IsStateChar s
    → acc < bound
    → digits36 acc s < bound * 36 ^ length s
unfolding digits36
digits36-lt [] acc bound h k = omega (arith, k)
digits36-lt (c ∷ s) acc bound h k =
    let d = digit36-state_digit c h.0 in
    let rest = digits36-lt s (acc * 36 + state_digit c) (bound * 36) h.1 (omega (arith, k, d.1)) in
    rw (d.0, digits36) (rw (pow-suc 36 (length s)) (omega (arith, rest)))

same_digit :
    (acc acc' c c' : ℕ) (s s' : Bytes)
    → digit36 c ≡ some (state_digit c)
    → digit36 c' ≡ some (state_digit c')
    → digits36 acc (c ∷ s) ≡ digits36 acc' (c' ∷ s')
    → digits36 (acc * 36 + state_digit c) s ≡ digits36 (acc' * 36 + state_digit c') s'
unfolding digits36
same_digit acc acc' c c' s s' d d' e = (rw (d, digits36) refl) ∙ e ∙ (rw (d', digits36) refl)

digits36_injective :
    (s s' : Bytes) (acc acc' : ℕ)
    → All IsStateChar s
    → All IsStateChar s'
    → length s ≡ length s'
    → digits36 acc s ≡ digits36 acc' s'
    → (acc ≡ acc') × (s ≡ s')
unfolding digits36
digits36_injective [] [] acc acc' h h' l e = (e, refl)
digits36_injective [] (d ∷ s') acc acc' h h' l e = ground arith
digits36_injective (c ∷ s) [] acc acc' h h' l e = ground arith
digits36_injective (c ∷ s) (c' ∷ s') acc acc' h h' l e =
    let d = digit36-state_digit c h.0 in
    let d' = digit36-state_digit c' h'.0 in
    let rest =
      digits36_injective s s' (acc * 36 + state_digit c) (acc' * 36 + state_digit c') h.1 h'.1
        (omega (arith, l)) (same_digit acc acc' c c' s s' d.0 d'.0 e) in
    let digit = state_digit_injective c c' h.0 h'.0 (omega (arith, rest.0, d.1, d'.1)) in
    (omega (arith, rest.0, d.1, d'.1), rw digit (rw rest.1 refl))

-- An SQLSTATE: five digits or capital letters.
abbrev pub IsState : Bytes → Type 0
IsState s = (length s ≡ 5) × All IsStateChar s

IsState-ne-nil : (s : Bytes) → IsState s → s ≢ []
IsState-ne-nil [] h = ground (arith, h.0)
IsState-ne-nil (c ∷ s) h = ground arith

digits36-IsState : (s : Bytes) → IsState s → digits36 0 s < 36 ^ 5
digits36-IsState s h =
    omega (arith, subst (λ n. digits36 0 s < 1 * 36 ^ n) h.0 (digits36-lt s 0 1 h.1 (omega arith)))

to_long_small : (n : ℕ) → n < 36 ^ 5 → to_long false n % 2 ^ 32 ≡ n
unfolding to_long
to_long_small n h = ground arith

result_error-state :
    (s : Bytes) → IsState s → result_error (some s) ≡ ErrorCode.sqlstate (digits36 0 s)
unfolding result_error
result_error-state s h =
    rw (signed_digits-IsDigit s (All-IsDigit s h.1) (IsState-ne-nil s h))
      (ap ErrorCode.sqlstate (to_long_small (digits36 0 s) (digits36-IsState s h)))

value_of : ErrorCode → ℕ
value_of (ErrorCode.sqlstate n) = n
value_of _ = 0

-- Two failed requests with SQLSTATEs of five digits or capital letters have the same code only if
-- they have the same SQLSTATE.
pub result_error_injective :
    (s s' : Bytes)
    → IsState s
    → IsState s'
    → result_error (some s) ≡ result_error (some s')
    → s ≡ s'
unfolding value_of
result_error_injective s s' h h' e =
    let same = ap value_of (sym (result_error-state s h) ∙ e ∙ result_error-state s' h') in
    (digits36_injective s s' 0 0 h.1 h'.1 (omega (arith, h.0, h'.0)) same).1

-- The message of a nonnegative code that is no enumerator ends in an SQL state that gives the code.
message_unlisted :
    (n : ℕ)
    → n < 2 ^ 31
    → case_of enumerators n ≡ none
    → (t : Bytes) × (message n ≡ codes "sql state " ++ t)
      × (result_error (some t) ≡ ErrorCode.sqlstate n)
unfolding message result_error int_to_long
message_unlisted n h e = (
  ltob36 n,
  (rw (message, e) (rw (int_to_long, lt→ltb n (2 ^ 31) h) refl)),
  rw (b36tol-ltob36 n (omega (arith, h))) (ap ErrorCode.sqlstate (omega (arith, h))),
)
