-- ===== src/Io/Length/Nulls.antt =====
-- `size_of` of arrays that hold nulls.
use ozo.Prelude.{
  ℕ, zero, suc, ◌+◌, ◌*◌, ◌^◌, ◌<◌, ◌≡◌, refl, Bool, true, false, List, [], ◌++◌, arith, length,
  length-append, length-replicate, Option, none, replicate,
}
use ozo.Io.Types.{Ty, nullable, array, El, static_size}
use ozo.Io.OidMap.{OidMap, type_oid}
use ozo.Io.SizeOf.{int32, null_state_size, size_of, array_data_size, accumulate}
use ozo.Io.Send.{send, send_items, data_frame, write_pg_array, write_pg_array_dimension}
use ozo.Io.Length.{length-data_frame, length-write_pg_array, length-write_pg_array_dimension}

abbrev pub nulls : (t : Ty) → ℕ → List (Option (El t))
nulls t n = replicate n none

null_items-length :
    (oids : OidMap) (t : Ty) (n : ℕ)
    → length (send_items (size_of (nullable t)) (send oids (nullable t)) (nulls t n)) ≡ 4 * n
unfolding send_items send size_of
null_items-length oids t zero = refl
null_items-length oids t (suc n) = omega (
  arith,
  null_items-length oids t n,
  length-append (data_frame null_state_size [])
      (send_items (size_of (nullable t)) (send oids (nullable t)) (nulls t n)),
  length-data_frame null_state_size [],
)

accumulate-nulls :
    (t : Ty) (n r : ℕ)
    → r < 2 ^ 32
    → accumulate (size_of (nullable t)) (nulls t n) r ≡ int32 (r + 3 * n)
unfolding accumulate size_of
accumulate-nulls t zero r h = omega arith
accumulate-nulls t (suc n) r h = omega (arith, accumulate-nulls t n (int32 (r + 3)) (omega arith))

data_size-nulls :
    (static : Bool) (t : Ty) (n : ℕ)
    → n < 2 ^ 29
    → array_data_size (size_of (nullable t)) static (nulls t n) ≡ 3 * n
unfolding array_data_size size_of
data_size-nulls false t n h = omega (arith, accumulate-nulls t n 0 (omega arith))
data_size-nulls true t zero h = refl
data_size-nulls true t (suc n) h = omega (arith, length-replicate {A = Option (El t)} n none)

-- An array of fewer than 2 ^ 29 nulls and nothing else is sent as 4 bytes for each after the
-- headers, while `size_of` counts 3 for each.
pub size_of-nulls :
    (oids : OidMap) (t : Ty) (n : ℕ)
    → n < 2 ^ 29
    → (size_of (array (nullable t)) (nulls t n) ≡ 20 + 3 * n)
      × (length (send oids (array (nullable t)) (nulls t n)) ≡ 20 + 4 * n)
unfolding size_of send
size_of-nulls oids t n h = (
  omega (arith, data_size-nulls (static_size (nullable t)) t n h),
  omega (
    arith,
    null_items-length oids t n,
    length-append (write_pg_array 1 0 (type_oid oids (nullable t))) (
        write_pg_array_dimension (int32 (length (nulls t n))) 0
        ++ send_items (size_of (nullable t)) (send oids (nullable t)) (nulls t n)),
    length-append (write_pg_array_dimension (int32 (length (nulls t n))) 0)
        (send_items (size_of (nullable t)) (send oids (nullable t)) (nulls t n)),
    length-write_pg_array 1 0 (type_oid oids (nullable t)),
    length-write_pg_array_dimension (int32 (length (nulls t n))) 0,
  ),
)
