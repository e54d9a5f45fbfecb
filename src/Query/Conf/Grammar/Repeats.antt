-- ===== src/Query/Conf/Grammar/Repeats.antt =====
-- Parsers that take something, and their repetition.
use mathlib.Core.Option.{some-injective}
use ozo.Prelude.{
  ℕ, zero, suc, ◌+◌, ◌≤◌, ◌<◌, ◌≡◌, refl, sym, ap, ◌∙◌, ◌⊎◌, inl, inr, arith, List, [], ◌∷◌, ◌++◌,
  none, some, Bytes, append_assoc, length, length-append, Option-cases,
}
use ozo.Query.Conf.Grammar.{Parser, X3, on}
use ozo.Query.Conf.Grammar.Laws.{Consumes, IsX3}
use ozo.Query.Conf.Grammar.Spells.{Spells, concat_map, then-some, else-some, on-some}

-- A parser whose attributes all spell something takes something.
pub Spells-Consumes :
    {A : Type 0} (p : Parser A) (spell : A → Bytes)
    → Spells p spell
    → ((a : A) → 0 < length (spell a))
    → Consumes p
Spells-Consumes p spell h more bs a rest e =
    let spelt : length bs ≡ length (spell a) + length rest =
      ap length (h bs a rest e) ∙ length-append (spell a) rest in
    let some_taken = more a in omega (arith, spelt, some_taken)

-- A parser that spells what it takes leaves no more than there was.
pub Spells-length :
    {A : Type 0} (p : Parser A) (spell : A → Bytes)
    → Spells p spell
    → (bs : Bytes) (a : A) (rest : Bytes) → p bs ≡ some (a, rest)
    → length rest ≤ length bs
Spells-length p spell h bs a rest e =
    let spelt : length bs ≡ length (spell a) + length rest =
      ap length (h bs a rest e) ∙ length-append (spell a) rest in
    omega (arith, spelt)

module _ (x3 : X3) (laws : IsX3 x3) where
  pub string-Consumes : (s : Bytes) → 0 < length s → Consumes (x3.string s)
  string-Consumes s more bs a rest e =
      let matched = laws.string_matched s bs a rest e in
      let spelt : length bs ≡ length s + length rest = ap length matched.1 ∙ length-append s rest in
      omega (arith, spelt, more)

  module _ {A : Type 0} (p : Parser A) where
    pub alt-Consumes : (q : Parser A) → Consumes p → Consumes q → Consumes (x3.alt p q)
    alt-Consumes q h k bs a rest e =
        elim (else-some (p bs) (q bs) (a, rest) (sym (laws.alt_is p q bs) ∙ e)) [
          | inl f ↦ h bs a rest f
          | inr f ↦ k bs a rest f.1
        ]

    -- A sequence takes something if one of its two parts does, and the other leaves no more.
    pub seq-Consumes :
        {B : Type 0} (q : Parser B) (spell : A → Bytes) (spell' : B → Bytes)
        → Spells p spell
        → Spells q spell'
        → Consumes p ⊎ Consumes q
        → Consumes (x3.seq p q)
    seq-Consumes q spell spell' h k takes bs c rest e =
        let (r, f, g) =
          then-some (p bs) (λ r. on (λ b. (r.0, b)) q r.1) (c, rest)
            (sym (laws.seq_is p q bs) ∙ e) in
        let (b, m, same) = on-some (λ b. (r.0, b)) q r.1 c rest g in
        let first = Spells-length p spell h bs r.0 r.1 f in
        let second = Spells-length q spell' k r.1 b rest m in
        elim takes [
          | inl t ↦ let less = t bs r.0 r.1 f in omega (arith, less, second)
          | inr t ↦ let less = t r.1 b rest m in omega (arith, less, first)
        ]

  module _ {A : Type 0} (p : Parser A) (takes : Consumes p) where
    -- What a repetition takes: it spells what it takes, and stops where the parser does not match.
    abbrev pub Repeats : (A → Bytes) → Bytes → Type 0
    Repeats spell bs =
        (more : List A) × (rest : Bytes) × (x3.many p bs ≡ some (more, rest))
        × (bs ≡ concat_map spell more ++ rest)
        × (p rest ≡ none)

    many_shorter-Repeats :
        (spell : A → Bytes)
        → Spells p spell
        → (n : ℕ) (bs : Bytes) → length bs < n
        → Repeats spell bs
    many_shorter-Repeats spell h zero bs l = absurd (omega arith)
    many_shorter-Repeats spell h (suc n) bs l = elim (Option-cases (p bs)) [
      | inl e ↦ ([], bs, laws.many_is p bs takes ∙ rw e refl, refl, e)
      | inr ((a, rest), e) ↦
          let less = takes bs a rest e in
          let (more, last, goes, spelt, ends) =
            many_shorter-Repeats spell h n rest (omega (arith, less, l)) in
          (
            a ∷ more,
            last,
            laws.many_is p bs takes ∙ rw e (rw (on, goes) refl),
            h bs a rest e
                ∙ ap (λ t. spell a ++ t) spelt
                ∙ sym (append_assoc (spell a) (concat_map spell more) last),
            ends,
          )
    ]

    pub many-Repeats : (spell : A → Bytes) → Spells p spell → (bs : Bytes) → Repeats spell bs
    many-Repeats spell h bs = many_shorter-Repeats spell h (suc (length bs)) bs (omega arith)

    pub many-Spells : (spell : A → Bytes) → Spells p spell → Spells (x3.many p) (concat_map spell)
    many-Spells spell h bs more rest e =
        let (taken, left, goes, spelt, ends) = many-Repeats spell h bs in
        let same = some-injective _ _ (sym goes ∙ e) in
        spelt ∙ ap (λ r. concat_map spell r.0 ++ r.1) same

    -- One match and a repetition behind it.
    pub many1-some :
        (bs : Bytes) (l : List A) (rest : Bytes)
        → x3.many1 p bs ≡ some (l, rest)
        → (a : A) × (more : List A) × (left : Bytes) × (p bs ≡ some (a, left))
          × (x3.many p left ≡ some (more, rest))
          × (a ∷ more ≡ l)
    many1-some bs l rest e =
        let (r, f, g) =
          then-some (p bs) (λ r. on (λ m. r.0 ∷ m) (x3.many p) r.1) (l, rest)
            (sym (laws.many1_is p bs takes) ∙ e) in
        let (more, m, same) = on-some (λ m. r.0 ∷ m) (x3.many p) r.1 l rest g in
        (r.0, more, r.1, f, m, same)

    pub many1-Spells : (spell : A → Bytes) → Spells p spell → Spells (x3.many1 p) (concat_map spell)
    many1-Spells spell h bs l rest e =
        let (a, more, left, f, m, same) = many1-some bs l rest e in
        h bs a left f
        ∙ ap (λ t. spell a ++ t) (many-Spells spell h left more rest m)
        ∙ sym (append_assoc (spell a) (concat_map spell more) rest)
        ∙ ap (λ k. concat_map spell k ++ rest) same

    pub many1-Consumes : (spell : A → Bytes) → Spells p spell → Consumes (x3.many1 p)
    many1-Consumes spell h bs l rest e =
        let (a, more, left, f, m, same) = many1-some bs l rest e in
        let less = takes bs a left f in
        let kept =
          Spells-length (x3.many p) (concat_map spell) (many-Spells spell h) left more rest m in
        omega (arith, less, kept)
