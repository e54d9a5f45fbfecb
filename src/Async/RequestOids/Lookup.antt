-- ===== src/Async/RequestOids/Lookup.antt =====
-- The map of oids after the database's answer.
use mathlib.Core.Path.{subst}
use mathlib.Core.Option.{some-injective}
use ozo.Prelude.{
  ℕ, zero, suc, ◌≡◌, ◌≢◌, refl, ap, ◌⊎◌, inl, inr, arith, true, false, List, [], ◌∷◌, none, some,
  Bytes, All, length, get_elem?, All-get_elem?, map, ◌==◌, ==_iff, Bool-cases,
}
use ozo.Errors.Codes.{ErrorCode, Code, is_error}
use ozo.Io.OidMap.{OidMap, TypeKey, single, vector_of, vector_of_nullable, key_eq, at_key}
use ozo.Async.RequestOids.{Failure, null_oid_for, Connection, set_keys, set_oid_map, oids_received}

abbrev pub keys : OidMap → List TypeKey
keys m = map (λ e. e.0) m

-- The keys of a `hana::map` are all different.
abbrev pub IsDistinct : List TypeKey → Type 0
IsDistinct [] = Unit {0}
IsDistinct (k ∷ ks) = All (λ j. key_eq k j ≡ false) ks × IsDistinct ks

key_eq_self : (k : TypeKey) → key_eq k k ≡ true
unfolding key_eq
key_eq_self (single a) = (==_iff a a).1 refl
key_eq_self (vector_of a) = (==_iff a a).1 refl
key_eq_self (vector_of_nullable a) = (==_iff a a).1 refl

set_keys-some :
    (m : OidMap) (res : List ℕ)
    → All (λ oid. (oid == 0) ≡ false) res
    → length m ≡ length res
    → ((set_keys m res).0 ≡ none) × (keys (set_keys m res).1 ≡ keys m)
unfolding set_keys
set_keys-some [] res h l = (refl, refl)
set_keys-some ((k, old) ∷ m) [] h l = (refl, refl)
set_keys-some ((k, old) ∷ m) (oid ∷ res) h l =
    let rest = set_keys-some m res h.1 (omega (arith, l)) in
    rw (set_keys, h.0) (rest.0, ap (λ ks. k ∷ ks) rest.1)

set_keys-at_key :
    (m : OidMap) (res : List ℕ) (i : ℕ) (k : TypeKey) (oid : ℕ)
    → All (λ oid. (oid == 0) ≡ false) res
    → IsDistinct (keys m)
    → get_elem? (keys m) i ≡ some k
    → get_elem? res i ≡ some oid
    → at_key (set_keys m res).1 k ≡ oid
unfolding set_keys at_key
set_keys-at_key [] res i k oid h d e g = ground (arith, e)
set_keys-at_key (_ ∷ m) [] i k oid h d e g = ground (arith, g)
set_keys-at_key ((j, old) ∷ m) (o ∷ res) zero k oid h d e g =
    let same : j ≡ k = some-injective _ _ e in
    rw (set_keys, h.0)
      (rw (at_key, subst (λ l. key_eq j l ≡ true) same (key_eq_self j)) (some-injective _ _ g))
set_keys-at_key ((j, old) ∷ m) (o ∷ res) (suc i) k oid h d e g =
    let rest = set_keys-at_key m res i k oid h.1 d.1 e g in
    let differs : key_eq j k ≡ false = All-get_elem? (λ l. key_eq j l ≡ false) (keys m) i k d.0 e in
    rw (set_keys, h.0) (rw (at_key, differs) rest)

set_oid_map-set_keys :
    (m : OidMap) (res : List ℕ) → length m ≡ length res → set_oid_map m res ≡ set_keys m res
unfolding set_oid_map
set_oid_map-set_keys m res l = rw ((==_iff (length m) (length res)).1 l) refl

-- What the handler gets, where the answer has one oid for each type and none of them is null: no
-- error, and a connection on which the type at each place of the map has the oid at that place.
pub oids_received-at_key :
    (what : Failure → Bytes) (res : List ℕ) (conn : Connection) (i : ℕ) (k : TypeKey) (oid : ℕ)
    → IsDistinct (keys conn.oid_map)
    → length conn.oid_map ≡ length res
    → All (λ oid. (oid == 0) ≡ false) res
    → get_elem? (keys conn.oid_map) i ≡ some k
    → get_elem? res i ≡ some oid
    → let received = oids_received what ErrorCode.success res conn in
      (received.0 ≡ ErrorCode.success) × (at_key received.1.oid_map k ≡ oid)
unfolding oids_received is_error
oids_received-at_key what res conn i k oid d l h e g =
    let set = set_keys-some conn.oid_map res h l in
    let same = set_oid_map-set_keys conn.oid_map res l in
    let found : at_key (set_oid_map conn.oid_map res).1 k ≡ oid =
      rw same (set_keys-at_key conn.oid_map res i k oid h d e g) in
    rw (same, oids_received, set.0) (refl, found)

set_keys_null :
    (m : OidMap) (res : List ℕ) (i : ℕ)
    → length m ≡ length res
    → get_elem? res i ≡ some 0
    → (f : Failure) × ((set_keys m res).0 ≡ some f)
unfolding set_keys
set_keys_null [] [] i l e = ground (arith, e)
set_keys_null [] (oid ∷ res) i l e = absurd (omega (arith, l))
set_keys_null ((k, old) ∷ m) [] i l e = absurd (omega (arith, l))
set_keys_null ((k, old) ∷ m) (oid ∷ res) zero l e =
    (null_oid_for k, rw (set_keys, (==_iff oid 0).1 (some-injective _ _ e)) refl)
set_keys_null ((k, old) ∷ m) (oid ∷ res) (suc i) l e =
    let rest = set_keys_null m res i (omega (arith, l)) e in
    elim (Bool-cases (oid == 0)) [
      | inl z ↦ (null_oid_for k, rw (set_keys, z) refl)
      | inr z ↦ (rest.0, rw (set_keys, z) rest.1)
    ]

-- An answer that has another number of oids than the map has types, or that has a null oid, makes
-- the request for the connection fail.
oids_received_fails :
    (what : Failure → Bytes) (res : List ℕ) (conn : Connection)
    → (length conn.oid_map ≢ length res) ⊎ ((i : ℕ) × (get_elem? res i ≡ some 0))
    → (oids_received what ErrorCode.success res conn).0 ≡ ErrorCode.error Code.oid_request_failed
unfolding oids_received set_oid_map is_error
oids_received_fails what res conn (inl ne) = elim (Bool-cases (length conn.oid_map == length res)) [
  | inl l ↦ absurd (ne ((==_iff (length conn.oid_map) (length res)).0 l))
  | inr l ↦ rw l refl
]
oids_received_fails what res conn (inr (i, e)) =
    elim (Bool-cases (length conn.oid_map == length res)) [
      | inl l ↦
          let set =
            set_keys_null conn.oid_map res i ((==_iff (length conn.oid_map) (length res)).0 l) e in
          rw l (rw (oids_received, set.1) refl)
      | inr l ↦ rw l refl
    ]
