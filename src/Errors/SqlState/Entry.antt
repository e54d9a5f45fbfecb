-- ===== src/Errors/SqlState/Entry.antt =====
-- One enumerator of `sqlstate::code`: its name, its value, and the SQLSTATE in its comment.
use Prim.Native.String.{String}
use ozo.Prelude.{ℕ}

pub record Enumerator : Type 0 where
  pub name : String
  pub value : ℕ
  pub sqlstate : String

abbrev pub enumerator : String → ℕ → String → Enumerator
enumerator n v s = record { name = n; value = v; sqlstate = s }
