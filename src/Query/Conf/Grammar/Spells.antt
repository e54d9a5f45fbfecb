-- ===== src/Query/Conf/Grammar/Spells.antt =====
-- What parsers take of a text, by what their attributes spell.
use mathlib.Core.Option.{some-injective}
use ozo.Prelude.{
  ℕ, ◌≡◌, refl, sym, ap, ◌∙◌, ◌⊎◌, inl, inr, arith, Bool, List, [], ◌∷◌, ◌++◌, Option, none, some,
  Bytes, append_assoc, Option-cases, Bool-cases,
}
use ozo.Query.Conf.Grammar.{Parser, X3, on}
use ozo.Query.Conf.Grammar.Laws.{Consumes, IsX3}

-- What a parser takes is what its attribute spells.
abbrev pub Spells : {A : Type 0} → Parser A → (A → Bytes) → Type 0
Spells {A} p spell =
    (bs : Bytes) (a : A) (rest : Bytes) → p bs ≡ some (a, rest) → bs ≡ spell a ++ rest

abbrev pub concat_map : {A : Type 0} → (A → Bytes) → List A → Bytes
concat_map spell [] = []
concat_map spell (a ∷ more) = spell a ++ concat_map spell more

-- Of a character, and of a sequence of characters.
abbrev pub one : ℕ → Bytes
one c = c ∷ []

pub concat_one : (bs : Bytes) → concat_map one bs ≡ bs
concat_one [] = refl
concat_one (b ∷ bs) = ap (λ t. b ∷ t) (concat_one bs)

-- A result that comes from another one.
pub then-some :
    {A B : Type 0} (o : Option A) (next : A → Option B) (b : B)
    → elim o [ none ↦ none | some r ↦ next r ] ≡ some b
    → (r : A) × (o ≡ some r) × (next r ≡ some b)
then-some none next b h = ground (arith, h)
then-some (some r) next b h = (r, refl, h)

pub else-some :
    {A : Type 0} (o other : Option A) (b : A)
    → elim o [ none ↦ other | some r ↦ some r ] ≡ some b
    → (o ≡ some b) ⊎ ((o ≡ none) × (other ≡ some b))
else-some none other b h = inr (refl, h)
else-some (some r) other b h = inl h

module _ {A B : Type 0} (action : A → B) (p : Parser A) where
  pub on-some :
      (bs : Bytes) (b : B) (rest : Bytes)
      → on action p bs ≡ some (b, rest)
      → (a : A) × (p bs ≡ some (a, rest)) × (action a ≡ b)
  on-some bs b rest h =
      let (r, e, k) = then-some (p bs) (λ r. some (action r.0, r.1)) (b, rest) h in
      let same = some-injective _ _ k in
      (r.0, e ∙ ap (λ t. some (r.0, t)) (ap (λ c. c.1) same), ap (λ c. c.0) same)

  pub on-Spells :
      (spell : B → Bytes) → Spells p (λ a. spell (action a)) → Spells (on action p) spell
  on-Spells spell h bs b rest e =
      let (a, k, same) = on-some bs b rest e in h bs a rest k ∙ ap (λ c. spell c ++ rest) same

  pub on-Consumes : Consumes p → Consumes (on action p)
  on-Consumes h bs b rest e = let (a, k, same) = on-some bs b rest e in h bs a rest k

module _ (x3 : X3) (laws : IsX3 x3) where
  pub string-Spells : (s : Bytes) → Spells (x3.string s) (λ a. a)
  string-Spells s bs a rest h =
      let (same, spelt) = laws.string_matched s bs a rest h in
      spelt ∙ ap (λ t. t ++ rest) (sym same)

  module _ {A : Type 0} (p : Parser A) (spell : A → Bytes) where
    pub alt-Spells : (q : Parser A) → Spells p spell → Spells q spell → Spells (x3.alt p q) spell
    alt-Spells q h k bs a rest e =
        elim (else-some (p bs) (q bs) (a, rest) (sym (laws.alt_is p q bs) ∙ e)) [
          | inl f ↦ h bs a rest f
          | inr f ↦ k bs a rest f.1
        ]

    pub except-Spells : {B : Type 0} (q : Parser B) → Spells p spell → Spells (x3.except p q) spell
    except-Spells q h bs a rest e = elim (Option-cases (q bs)) [
      | inl f ↦
          let kept : x3.except p q bs ≡ p bs = laws.except_is p q bs ∙ rw f refl in
          h bs a rest (sym kept ∙ e)
      | inr f ↦
          let refused : x3.except p q bs ≡ none = laws.except_is p q bs ∙ rw f.1 refl in
          ground (arith, sym refused ∙ e)
    ]

    pub seq-Spells :
        {B : Type 0} (q : Parser B) (spell' : B → Bytes)
        → Spells p spell
        → Spells q spell'
        → Spells (x3.seq p q) (λ c. spell c.0 ++ spell' c.1)
    seq-Spells q spell' h k bs c rest e =
        let (r, f, g) =
          then-some (p bs) (λ r. on (λ b. (r.0, b)) q r.1) (c, rest)
            (sym (laws.seq_is p q bs) ∙ e) in
        let (b, m, same) = on-some (λ b. (r.0, b)) q r.1 c rest g in
        h bs r.0 r.1 f
        ∙ ap (λ t. spell r.0 ++ t) (k r.1 b rest m)
        ∙ sym (append_assoc (spell r.0) (spell' b) rest)
        ∙ ap (λ d. (spell d.0 ++ spell' d.1) ++ rest) same

  pub char-Spells : (f : ℕ → Bool) → Spells (x3.char_ f) (λ c. c ∷ [])
  char-Spells f [] c rest e = ground (arith, sym (laws.char_end f) ∙ e)
  char-Spells f (b ∷ bs) c rest e = elim (Bool-cases (f b)) [
    | inl k ↦
        let taken : x3.char_ f (b ∷ bs) ≡ some (b, bs) = laws.char_one f b bs ∙ rw k refl in
        let same = some-injective _ _ (sym taken ∙ e) in ap (λ r. r.0 ∷ r.1) same
    | inr k ↦
        let refused : x3.char_ f (b ∷ bs) ≡ none = laws.char_one f b bs ∙ rw k refl in
        ground (arith, sym refused ∙ e)
  ]

  pub eoi-Spells : Spells x3.eoi (λ u. [])
  eoi-Spells [] u rest e = ap (λ r. r.1) (some-injective _ _ (sym laws.eoi_end ∙ e))
  eoi-Spells (c ∷ bs) u rest e = ground (arith, sym (laws.eoi_fails c bs) ∙ e)

  -- What ends with `eoi` leaves nothing.
  eoi_rest : (bs : Bytes) (u : Unit {0}) (rest : Bytes) → x3.eoi bs ≡ some (u, rest) → rest ≡ []
  eoi_rest [] u rest e = sym (ap (λ r. r.1) (some-injective _ _ (sym laws.eoi_end ∙ e)))
  eoi_rest (c ∷ bs) u rest e = ground (arith, sym (laws.eoi_fails c bs) ∙ e)

  pub seq-eoi :
      {A : Type 0} (p : Parser A) (bs : Bytes) (c : A × Unit {0}) (rest : Bytes)
      → x3.seq p x3.eoi bs ≡ some (c, rest)
      → rest ≡ []
  seq-eoi p bs c rest e =
      let (r, f, g) =
        then-some (p bs) (λ r. on (λ b. (r.0, b)) x3.eoi r.1) (c, rest)
          (sym (laws.seq_is p x3.eoi bs) ∙ e) in
      let (u, m, same) = on-some (λ b. (r.0, b)) x3.eoi r.1 c rest g in eoi_rest r.1 u rest m
