-- ===== src/Errors/SqlState/Messages.antt =====
-- The SQL states of failed requests and their messages.
use mathlib.Core.Bool.{Bool, true, false, ◌&&◌}
use ozo.Prelude.{
  ◌≡◌, refl, ap, ◌∙◌, ◌^◌, List, [], ◌∷◌, ◌++◌, Option, none, some, ◌==◌, ltb, All, arith, ==_iff,
}
use ozo.Prelude.Text.{codes, bytes_eq, bytes_eq_iff}
use ozo.Errors.Base36.{b36tol, ltob36, digits36, digit36, signed_digits, skip_space, to_long}
use ozo.Errors.SqlState.{Enumerator, enumerators, case_of, name_message, message, result_error}
use ozo.Errors.Codes.{ErrorCode}

-- The case that the switch takes on an enumerator carries its name and its value.
found_as : Enumerator → Option Enumerator → Bool
found_as e none = false
found_as e (some e') = (e'.value == e.value) && bytes_eq (codes e'.name) (codes e.name)

agrees : Enumerator → Bool
agrees e =
    (b36tol (codes e.sqlstate) == e.value && ltb e.value (2 ^ 32))
    && found_as e (case_of enumerators e.value)

agrees_all : List Enumerator → Bool
agrees_all [] = true
agrees_all (e ∷ es) = agrees e && agrees_all es

agrees_all-enumerators : agrees_all enumerators ≡ true
unfolding b36tol digits36 digit36 signed_digits skip_space to_long agrees agrees_all found_as
    case_of bytes_eq
agrees_all-enumerators = refl

&&_left : (b c : Bool) → (b && c) ≡ true → b ≡ true
&&_left b c h = ground arith

&&_right : (b c : Bool) → (b && c) ≡ true → c ≡ true
&&_right b c h = ground arith

-- The name of an enumerator stands in the message of the code that its SQLSTATE gives.
abbrev pub IsReported : Enumerator → Type 0
IsReported e =
    (result_error (some (codes e.sqlstate)) ≡ ErrorCode.sqlstate e.value)
    × (message e.value ≡ codes e.name ++ codes "(" ++ ltob36 e.value ++ codes ")")

found_as-message :
    (e : Enumerator)
    → (o : Option Enumerator) → case_of enumerators e.value ≡ o
    → found_as e o ≡ true
    → message e.value ≡ name_message e
unfolding found_as message name_message
found_as-message e none q h = ground arith
found_as-message e (some e') q h =
    let values = (==_iff e'.value e.value).0 (&&_left (e'.value == e.value) _ h) in
    let names =
      (bytes_eq_iff (codes e'.name) (codes e.name)).0 (&&_right (e'.value == e.value) _ h) in
    rw (message, q) (rw values (rw names refl))

agrees-IsReported : (e : Enumerator) → agrees e ≡ true → IsReported e
unfolding agrees result_error
agrees-IsReported e h =
    let number = &&_left (b36tol (codes e.sqlstate) == e.value && ltb e.value (2 ^ 32)) _ h in
    let found = &&_right (b36tol (codes e.sqlstate) == e.value && ltb e.value (2 ^ 32)) _ h in
    (
      ap ErrorCode.sqlstate (ground (arith, number)),
      found_as-message e (case_of enumerators e.value) refl found ∙ unfold name_message in refl,
    )

agrees_all-IsReported : (es : List Enumerator) → agrees_all es ≡ true → All IsReported es
unfolding agrees_all
agrees_all-IsReported [] h = tt
agrees_all-IsReported (e ∷ es) h = (
  agrees-IsReported e (&&_left (agrees e) _ h),
  agrees_all-IsReported es (&&_right (agrees e) _ h),
)

-- For every enumerator, a failed request with the SQLSTATE of its comment has its value as the
-- code, and the message of that code is its name and, in parentheses, the value in base 36.
pub result_error-enumerators : All IsReported enumerators
result_error-enumerators = agrees_all-IsReported enumerators agrees_all-enumerators
