-- ===== src/Errors/Tests.antt =====
-- SQL states on which the theorems about error codes are tried.
use ozo.Prelude.{◌≡◌, refl, none, arith}
use ozo.Prelude.Text.{codes}
use ozo.Errors.Base36.{ltob36, b36tol}
use ozo.Errors.Base36.RoundTrip.{b36tol-ltob36}
use ozo.Errors.SqlState.{enumerators, case_of}
use ozo.Errors.SqlState.Injective.{IsState, result_error_injective}

b36tol-ltob36_example : b36tol (ltob36 46656) ≡ 46656
b36tol-ltob36_example = b36tol-ltob36 46656 (omega arith)

violation-IsState : IsState (codes "23505")
violation-IsState = (refl, (refl, (refl, (refl, (refl, (refl, tt))))))

result_error_injective_example : codes "23505" ≡ codes "23505"
result_error_injective_example =
    result_error_injective (codes "23505") (codes "23505") violation-IsState violation-IsState refl

not_listed : case_of enumerators 37 ≡ none
unfolding case_of
not_listed = refl
