-- ===== src/Connections/Message.antt =====
-- `connection_error_message` of include/ozo/impl/connection.h.
use ozo.Prelude.{
  ℕ, suc, ◌+◌, ◌-◌, ◌<◌, ◌≡◌, ◌≢◌, refl, ap, arith, [], ◌∷◌, ◌++◌, Option, none, some, Bytes,
  length, take, replicate, lt→ltb, ◌==◌, ==_iff, Option-cases, Bool-cases, inl, inr, true, false,
}
use ozo.Connections.{ConnectionApi, connection_error_message, find_last_not_of, remove_suffix}

abbrev pub last : Bytes → Option ℕ
last [] = none
last (c ∷ []) = some c
last (c ∷ d ∷ ds) = last (d ∷ ds)

-- `w` is `v` without the spaces at its end.
abbrev pub IsTrimmed : Bytes → Bytes → Type 0
IsTrimmed v w = ((k : ℕ) × (v ≡ w ++ replicate k b' ')) × (last w ≢ some b' ')

kept : Bytes → Option ℕ → Bytes
kept v none = []
kept v (some i) = take (suc i) v

keep-IsTrimmed :
    (c : ℕ) (cs : Bytes) → (c == b' ') ≡ false → IsTrimmed cs [] → IsTrimmed (c ∷ cs) (c ∷ [])
keep-IsTrimmed c cs ne h = ((h.0.0, ap (◌∷◌ c) h.0.1), λ q. ground (arith, q, ne))

drop-IsTrimmed : (c : ℕ) (cs : Bytes) → (c == b' ') ≡ true → IsTrimmed cs [] → IsTrimmed (c ∷ cs) []
drop-IsTrimmed c cs e h =
    let space : c ≡ b' ' = (==_iff c b' ').0 e in
    ((suc (h.0.0), rw space (ap (◌∷◌ b' ') h.0.1)), λ q. ground (arith, q))

cons-IsTrimmed :
    (c : ℕ) (cs : Bytes) (i : ℕ)
    → find_last_not_of cs ≡ some i
    → IsTrimmed cs (take (suc i) cs)
    → IsTrimmed (c ∷ cs) (c ∷ take (suc i) cs)
unfolding find_last_not_of
cons-IsTrimmed c [] i e h = ground (arith, e)
cons-IsTrimmed c (d ∷ ds) i e h = ((h.0.0, ap (◌∷◌ c) h.0.1), h.1)

find_last_not_of-IsTrimmed : (v : Bytes) → IsTrimmed v (kept v (find_last_not_of v))
unfolding find_last_not_of kept
find_last_not_of-IsTrimmed [] = ((0, refl), λ q. ground (arith, q))
find_last_not_of-IsTrimmed (c ∷ cs) = elim (Option-cases (find_last_not_of cs)) [
  | inl e ↦
      let ih : IsTrimmed cs [] = rw e at (find_last_not_of-IsTrimmed cs) in
      elim (Bool-cases (c == b' ')) [
        | inl t ↦ rw (e, find_last_not_of, t) (drop-IsTrimmed c cs t ih)
        | inr t ↦ rw (e, find_last_not_of, t) (keep-IsTrimmed c cs t ih)
      ]
  | inr e ↦
      let next : e.0 + 1 ≡ suc e.0 = omega arith in
      rw (find_last_not_of, e.1, next)
        (cons-IsTrimmed c cs e.0 e.1 (rw e.1 at (find_last_not_of-IsTrimmed cs)))
]

find_last_not_of-lt : (v : Bytes) (i : ℕ) → find_last_not_of v ≡ some i → i < length v
unfolding find_last_not_of
find_last_not_of-lt [] i e = ground (arith, e)
find_last_not_of-lt (c ∷ cs) i e = elim (Option-cases (find_last_not_of cs)) [
  | inl q ↦ ground (arith, e, q)
  | inr q ↦ ground (arith, e, q.1, find_last_not_of-lt cs q.0 q.1)
]

remove_suffix_all : (v : Bytes) → remove_suffix (length v) v ≡ []
unfolding remove_suffix
remove_suffix_all v = let none_left : length v - length v ≡ 0 = omega arith in rw none_left refl

remove_suffix_after :
    (v : Bytes) (i : ℕ) → i < length v → remove_suffix (length v - i - 1) v ≡ take (suc i) v
unfolding remove_suffix
remove_suffix_after v i h =
    let left : length v - (length v - i - 1) ≡ suc i = omega arith in rw left refl

module _ {N : Type 0} (api : ConnectionApi N) where
  message-kept :
      (handle : N)
      → connection_error_message api handle
        ≡ kept (api.pq_error_message handle) (find_last_not_of (api.pq_error_message handle))
  unfolding connection_error_message kept
  message-kept handle =
      let v = api.pq_error_message handle in
      elim (Option-cases (find_last_not_of v)) [
        | inl e ↦ rw (connection_error_message, e) (remove_suffix_all v)
        | inr e ↦
            let below = find_last_not_of-lt v e.0 e.1 in
            rw (connection_error_message, e.1, lt→ltb e.0 (length v) below)
              (remove_suffix_after v e.0 below)
      ]

  -- The message of a connection is libpq's, without the spaces at its end and with all else.
  pub connection_error_message-IsTrimmed :
      (handle : N) → IsTrimmed (api.pq_error_message handle) (connection_error_message api handle)
  connection_error_message-IsTrimmed handle =
      rw (message-kept handle) (find_last_not_of-IsTrimmed (api.pq_error_message handle))
