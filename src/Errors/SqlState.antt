-- ===== src/Errors/SqlState.antt =====
-- include/ozo/error.h: `sqlstate::code` and the messages of its category; include/ozo/impl/io.h: the
-- SQL state of a failed request. An `int` is its bit pattern, a number below 2 ^ 32.
mod Entry
mod DataCodes
mod SyntaxCodes
mod ServerCodes
pub mod Messages
pub mod Injective
use Prim.Native.String.{String}
use ozo.Prelude.{
  ℕ, ◌+◌, ◌-◌, ◌%◌, ◌^◌, List, [], ◌∷◌, ◌++◌, Option, none, some, Bytes, ◌==◌, ltb, if◌then◌else◌,
}
use ozo.Prelude.Text.{codes}
use ozo.Errors.Base36.{ltob36, b36tol}
use ozo.Errors.Codes.{ErrorCode, Code}
pub use Entry.{Enumerator, enumerator}
use DataCodes.{data_codes}
use SyntaxCodes.{syntax_codes}
use ServerCodes.{server_codes}

-- `enum code`, whose names are also the cases of `message`, in the same order.
abbrev pub enumerators : List Enumerator
enumerators = data_codes ++ (syntax_codes ++ server_codes)

-- The case of the `switch` for `value`.
unfoldable pub case_of : List Enumerator → ℕ → Option Enumerator
case_of [] value = none
case_of (e ∷ es) value = if value == e.value then some e else case_of es value

-- The argument of `ltob36` is a `long`, so that a negative `int` is extended by its sign.
unfoldable pub int_to_long : ℕ → ℕ
int_to_long value = if ltb value (2 ^ 31) then value else value + (2 ^ 64 - 2 ^ 32)

-- `__OZO_SQLSTATE_NAME`.
unfoldable pub name_message : Enumerator → Bytes
name_message e = codes e.name ++ codes "(" ++ ltob36 e.value ++ codes ")"

unfoldable pub message : ℕ → Bytes
message value = elim (case_of enumerators value) [
  | none ↦ codes "sql state " ++ ltob36 (int_to_long value)
  | some e ↦ name_message e
]

-- `pq_result_error`: the argument is libpq's `PQresultErrorField(res, PG_DIAG_SQLSTATE)`; the
-- conversion of the `long` to an `int` keeps the low 32 bits.
unfoldable pub result_error : Option Bytes → ErrorCode
result_error none = ErrorCode.error Code.no_sql_state_found
result_error (some s) = ErrorCode.sqlstate (b36tol s % 2 ^ 32)
