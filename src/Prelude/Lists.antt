-- ===== src/Prelude/Lists.antt =====
-- Lists measured and indexed by native numbers, under the library's names.
use Prim.Native.Nat.{ℕ, zero, suc, ◌+◌, ◌-◌, ◌≤◌}
use mathlib.Core.Path.{◌≡◌, refl, ap, sym, ◌∙◌, subst}
use mathlib.Core.Logic.{◌≢◌}
use mathlib.Core.List.{List, [], ◌∷◌, ◌++◌, map}
use mathlib.Core.Option.{Option, none, some, some-injective}
use native.Mathlib.Omega.{arith}

module _ {ℓ} {A : Type ℓ} where
  abbrev pub length : List A → ℕ
  length [] = 0
  length (x ∷ xs) = suc (length xs)

  abbrev pub get_elem? : List A → ℕ → Option A
  get_elem? [] i = none
  get_elem? (x ∷ xs) zero = some x
  get_elem? (x ∷ xs) (suc i) = get_elem? xs i

  abbrev pub drop : ℕ → List A → List A
  drop zero xs = xs
  drop (suc n) [] = []
  drop (suc n) (x ∷ xs) = drop n xs

  abbrev pub take : ℕ → List A → List A
  take zero xs = []
  take (suc n) [] = []
  take (suc n) (x ∷ xs) = x ∷ take n xs

  abbrev pub replicate : ℕ → A → List A
  replicate zero a = []
  replicate (suc n) a = a ∷ replicate n a

  abbrev pub All {κ} : (A → Type κ) → List A → Type κ
  All P [] = Unit {κ}
  All P (x ∷ xs) = P x × All P xs

  pub length-append : (xs ys : List A) → length (xs ++ ys) ≡ length xs + length ys
  length-append [] ys = omega arith
  length-append (x ∷ xs) ys = omega (arith, length-append xs ys)

module _ {ℓ} {A : Type ℓ} where
  pub length-map {κ} : {B : Type κ} (xs : List A) (f : A → B) → length (map f xs) ≡ length xs
  length-map [] f = refl
  length-map (x ∷ xs) f = ap suc (length-map xs f)

  pub length-replicate : (n : ℕ) (a : A) → length (replicate n a) ≡ n
  length-replicate zero a = refl
  length-replicate (suc n) a = ap suc (length-replicate n a)

  pub drop-append : (xs ys : List A) → drop (length xs) (xs ++ ys) ≡ ys
  drop-append [] ys = refl
  drop-append (x ∷ xs) ys = drop-append xs ys

  pub take-append : (xs ys : List A) → take (length xs) (xs ++ ys) ≡ xs
  take-append [] ys = refl
  take-append (x ∷ xs) ys = ap (◌∷◌ x) (take-append xs ys)

  pub All-get_elem? {κ} :
      (P : A → Type κ) (xs : List A) (i : ℕ) (x : A) → All P xs → get_elem? xs i ≡ some x → P x
  All-get_elem? P [] i x h e = ground (arith, e)
  All-get_elem? P (y ∷ ys) zero x h e = subst P (some-injective _ _ e) h.0
  All-get_elem? P (y ∷ ys) (suc i) x h e = All-get_elem? P ys i x h.1 e

  pub get_elem?-map {κ} :
      {B : Type κ} (f : A → B) (xs : List A) (i : ℕ) (x : A)
      → get_elem? xs i ≡ some x
      → get_elem? (map f xs) i ≡ some (f x)
  get_elem?-map f [] i x e = ground (arith, e)
  get_elem?-map f (y ∷ ys) zero x e = ap some (ap f (some-injective _ _ e))
  get_elem?-map f (y ∷ ys) (suc i) x e = get_elem?-map f ys i x e

  pub length-drop : (n : ℕ) (bs : List A) → length (drop n bs) ≡ length bs - n
  length-drop zero bs = omega arith
  length-drop (suc n) [] = omega arith
  length-drop (suc n) (b ∷ bs) = omega (arith, length-drop n bs)

  pub drop_nil : (n : ℕ) → drop {A = A} n [] ≡ []
  drop_nil zero = refl
  drop_nil (suc n) = refl

  pub drop-drop : (m n : ℕ) (bs : List A) → drop n (drop m bs) ≡ drop (m + n) bs
  drop-drop zero n bs = ap (λ k. drop k bs) (omega arith)
  drop-drop (suc m) n [] = drop_nil n ∙ sym (drop_nil (suc m + n))
  drop-drop (suc m) n (b ∷ bs) =
      let eq : suc (m + n) ≡ suc m + n = omega arith in
      drop-drop m n bs ∙ ap (λ k. drop k (b ∷ bs)) eq

  pub length-take_all : (n : ℕ) (bs : List A) → n ≤ length bs → length (take n bs) ≡ n
  length-take_all zero bs h = refl
  length-take_all (suc n) [] h = absurd (omega arith)
  length-take_all (suc n) (b ∷ bs) h = ap suc (length-take_all n bs (omega arith))

  pub length-take_some : (bs : List A) → length (take (length bs) bs) ≡ length bs
  length-take_some bs = length-take_all (length bs) bs (omega arith)

  -- The characters at a position and behind it.
  pub drop_end : (i : ℕ) (bs : List A) → get_elem? bs i ≡ none → drop i bs ≡ []
  drop_end zero [] h = refl
  drop_end (suc i) [] h = refl
  drop_end zero (b ∷ bs) h = ground (arith, h)
  drop_end (suc i) (b ∷ bs) h = drop_end i bs h

  pub drop_at :
      (i : ℕ) (bs : List A) (c : A) → get_elem? bs i ≡ some c → drop i bs ≡ c ∷ drop (i + 1) bs
  drop_at i [] c h = ground (arith, h)
  drop_at zero (b ∷ bs) c h = ap (λ x. x ∷ bs) (some-injective _ _ h)
  drop_at (suc i) (b ∷ bs) c h =
      let eq : suc (i + 1) ≡ suc i + 1 = omega arith in
      drop_at i bs c h ∙ ap (λ k. c ∷ drop k (b ∷ bs)) eq

-- Of two lists that are equal, with the same elements in front of the last, the last are equal.
pub last_of {ℓ} : {A : Type ℓ} (xs : List A) (a b : A) → xs ++ a ∷ [] ≡ xs ++ b ∷ [] → a ≡ b
last_of [] a b e = ground (arith, e)
last_of (x ∷ xs) a b e =
    let tails : xs ++ a ∷ [] ≡ xs ++ b ∷ [] = ground (arith, e) in last_of xs a b tails

-- A list is not itself with one more element.
pub one_more {ℓ} : {A : Type ℓ} (xs : List A) (a : A) → xs ≢ xs ++ a ∷ []
one_more [] a e = ground (arith, e)
one_more (x ∷ xs) a e = let tails : xs ≡ xs ++ a ∷ [] = ground (arith, e) in one_more xs a tails
