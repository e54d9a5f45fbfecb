-- ===== src/Io/BinaryQuery/Nulls.antt =====
-- A null parameter among others.
use ozo.Prelude.{ℕ, List, [], ◌∷◌, none}
use ozo.Io.Types.{Ty, nullable}
use ozo.Io.OidMap.{OidMap}
use ozo.Io.BinaryQuery.{Param, advance}

abbrev pub null_param : Ty → Param
null_param t = record { ty = nullable t; value = none }

-- The pointers of the sizes behind `xs`, where the offset has gone over `xs`.
advance_all : ℕ → List ℕ → ℕ
advance_all offset [] = offset
advance_all offset (n ∷ ns) = advance_all (advance offset n) ns
