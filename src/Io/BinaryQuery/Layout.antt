-- ===== src/Io/BinaryQuery/Layout.antt =====
-- Where the parameters of a query lie in its buffer.
use mathlib.Core.Path.{subst}
use ozo.Prelude.{
  ℕ, ◌+◌, ◌^◌, ◌<◌, ◌≡◌, refl, sym, ◌∙◌, List, [], ◌∷◌, ◌++◌, arith, length, length-append, Option,
  none, some, Bytes, All, map, drop, take, drop-append, take-append, append_assoc, append-nil,
  Bool-cases, inl, inr, ◌==◌, if◌then◌else◌, ==_iff,
}
use ozo.Io.OidMap.{OidMap, type_oid}
use ozo.Io.SizeOf.{size_of}
use ozo.Io.Send.{send}
use ozo.Io.Length.{NullFree}
use ozo.Io.Length.Objects.{size_of-send}
use ozo.Io.BinaryQuery.{
  Param, BinaryQuery, binary_format, blank, write_meta, write_params, advance, set_values,
  make_impl,
}

abbrev pub sent : OidMap → Param → Bytes
sent oids p = send oids p.ty p.value

abbrev pub size : Param → ℕ
size p = size_of p.ty p.value

-- What the parameters write, one behind the other.
abbrev pub all_sent : OidMap → List Param → Bytes
all_sent oids [] = []
all_sent oids (p ∷ ps) = sent oids p ++ all_sent oids ps

-- A parameter with no null in it, of less than 2 ^ 31 bytes.
abbrev pub IsPlain : OidMap → Param → Type 0
IsPlain oids p = NullFree p.ty p.value × (length (sent oids p) < 2 ^ 31)

-- The pointer of a parameter: null exactly if it wrote no byte, and else its bytes stand there.
abbrev pub PointsTo : OidMap → Bytes → Param → Option ℕ → Type 0
PointsTo oids buffer p none = length (sent oids p) ≡ 0
PointsTo oids buffer p (some offset) =
    (0 < length (sent oids p)) × (take (length (sent oids p)) (drop offset buffer) ≡ sent oids p)

abbrev pub AllPointTo : OidMap → Bytes → List Param → List (Option ℕ) → Type 0
AllPointTo oids buffer [] [] = Unit {0}
AllPointTo oids buffer (p ∷ ps) (v ∷ vs) = PointsTo oids buffer p v × AllPointTo oids buffer ps vs
AllPointTo oids buffer _ _ = ⊥

-- What the first loop leaves behind.
abbrev pub Written : OidMap → List Param → BinaryQuery → BinaryQuery → Type 0
Written oids ps r q =
    (q.buffer ≡ r.buffer ++ all_sent oids ps)
    × (q.types ≡ r.types ++ map (λ p. type_oid oids p.ty) ps)
    × (q.formats ≡ r.formats ++ map (λ p. binary_format) ps)
    × (q.lengths ≡ r.lengths ++ map size ps)

pub write_params-Written :
    (oids : OidMap) (ps : List Param) (r : BinaryQuery) → Written oids ps r (write_params oids ps r)
unfolding write_params write_meta
write_params-Written oids [] r = (
  sym (append-nil r.buffer),
  sym (append-nil r.types),
  sym (append-nil r.formats),
  sym (append-nil r.lengths),
)
write_params-Written oids (p ∷ ps) r =
    let w = write_params-Written oids ps (write_meta oids p r) in
    (
      w.0 ∙ append_assoc r.buffer (sent oids p) (all_sent oids ps),
      w.1 ∙ append_assoc r.types (type_oid oids p.ty ∷ []) (map (λ p. type_oid oids p.ty) ps),
      w.2 ∙ append_assoc r.formats (binary_format ∷ []) (map (λ p. binary_format) ps),
      w.3 ∙ append_assoc r.lengths (size p ∷ []) (map size ps),
    )

pub plain_size : (oids : OidMap) (p : Param) → IsPlain oids p → size p ≡ length (sent oids p)
plain_size oids p h = omega (arith, size_of-send oids p.ty p.value h.0, h.1)

map_plain_size :
    (oids : OidMap) (ps : List Param)
    → All (IsPlain oids) ps
    → map size ps ≡ map (λ p. length (sent oids p)) ps
map_plain_size oids [] h = refl
map_plain_size oids (p ∷ ps) h = rw (plain_size oids p h.0, map_plain_size oids ps h.1) refl

advance_plain : (offset n : ℕ) → n < 2 ^ 31 → offset + n < 2 ^ 64 → advance offset n ≡ offset + n
unfolding advance
advance_plain offset n h k = ground arith

first-PointsTo :
    (oids : OidMap) (before : Bytes) (p : Param) (after : Bytes)
    → IsPlain oids p
    → PointsTo oids
        (before ++ (sent oids p ++ after))
        p
        (if size p == 0 then none else some (length before))
first-PointsTo oids before p after h = elim (Bool-cases (size p == 0)) [
  | inl e ↦ rw e (omega (arith, plain_size oids p h, (==_iff (size p) 0).0 e))
  | inr e ↦ rw e (
    ground (arith, plain_size oids p h),
    rw (drop-append before (sent oids p ++ after)) (take-append (sent oids p) after),
  )
]

pub advance-sent :
    (oids : OidMap) (before : Bytes) (p : Param)
    → IsPlain oids p
    → length (before ++ sent oids p) < 2 ^ 64
    → advance (length before) (size p) ≡ length (before ++ sent oids p)
advance-sent oids before p h small =
    let sum = length-append before (sent oids p) in
    rw (plain_size oids p h)
      (advance_plain (length before) (length (sent oids p)) h.1 (omega (arith, sum)) ∙ sym sum)

pub length-before :
    (xs ys zs : Bytes) → length (xs ++ (ys ++ zs)) < 2 ^ 64 → length (xs ++ ys) < 2 ^ 64
length-before xs ys zs h =
    omega (arith, length-append xs ys, length-append xs (ys ++ zs), length-append ys zs)

set_values-AllPointTo :
    (oids : OidMap) (before : Bytes) (ps : List Param)
    → All (IsPlain oids) ps
    → length (before ++ all_sent oids ps) < 2 ^ 64
    → AllPointTo oids (before ++ all_sent oids ps) ps (set_values (length before) (map size ps))
unfolding set_values
set_values-AllPointTo oids before [] h small = tt
set_values-AllPointTo oids before (p ∷ ps) h small =
    let offset =
      advance-sent oids before p h.0
        (length-before before (sent oids p) (all_sent oids ps) small) in
    let regroup = append_assoc before (sent oids p) (all_sent oids ps) in
    (
      first-PointsTo oids before p (all_sent oids ps) h.0,
      rw offset (
          subst
            (λ b. AllPointTo oids b ps (set_values (length (before ++ sent oids p)) (map size ps)))
            regroup (set_values-AllPointTo oids (before ++ sent oids p) ps h.1 (rw regroup small))),
    )

-- For parameters with no null in them, of less than 2 ^ 31 bytes each and 2 ^ 64 together, the query
-- has each one's oid, the binary format and its number of bytes, and each value's pointer leads to
-- the bytes that `send` wrote for it, or is null if it wrote none.
pub make_impl-AllPointTo :
    (oids : OidMap) (ps : List Param)
    → All (IsPlain oids) ps
    → length (all_sent oids ps) < 2 ^ 64
    → let q = make_impl oids ps in
      (q.types ≡ map (λ p. type_oid oids p.ty) ps)
      × (q.formats ≡ map (λ p. 1) ps)
      × (q.lengths ≡ map (λ p. length (sent oids p)) ps)
      × AllPointTo oids q.buffer ps q.values
unfolding make_impl
make_impl-AllPointTo oids ps h small =
    let w = write_params-Written oids ps blank in
    (
      w.1,
      w.2,
      w.3 ∙ map_plain_size oids ps h,
      rw (w.0, w.3) (set_values-AllPointTo oids [] ps h small),
    )
