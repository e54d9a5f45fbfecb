-- ===== src/Query/Conf/Grammar/Laws.antt =====
-- What the documentation of X3 says of its parsers: they are those of a parsing expression grammar.
use ozo.Prelude.{
  ℕ, ◌<◌, ◌≡◌, ◌≢◌, Bool, false, leb, ◌==◌, ◌||◌, ◌&&◌, [], ◌∷◌, ◌++◌, none, some, Bytes, All,
  length, if◌then◌else◌,
}
use ozo.Query.Conf.Grammar.{Parser, X3, on}

-- A parser that takes at least one character when it matches.
abbrev pub Consumes : {A : Type 0} → Parser A → Type 0
Consumes {A} p =
    (bs : Bytes) (a : A) (rest : Bytes) → p bs ≡ some (a, rest) → length rest < length bs

-- The blank, and the characters from the tabulator to the carriage return.
abbrev pub is_space : ℕ → Bool
is_space c = c == 32 || leb 9 c && leb c 13

-- `eol` takes a line end, and `eoi` nothing, at the end. `p >> q` is `p` and then `q`; `p | q` is the
-- first that matches; `p - q` is `p` where `q` does not match; `*p` repeats `p` as long as it matches,
-- and `+p` as `*p`, once at least; `-p` is `p` or nothing. A skipper that has nothing to skip leaves the parse alone.
pub record IsX3 (x3 : X3) : Type 1 where
  pub string_matches : (s rest : Bytes) → x3.string s (s ++ rest) ≡ some (s, rest)
  pub string_matched :
      (s bs a rest : Bytes) → x3.string s bs ≡ some (a, rest) → (a ≡ s) × (bs ≡ s ++ rest)
  pub char_end : (f : ℕ → Bool) → x3.char_ f [] ≡ none
  pub char_one :
      (f : ℕ → Bool) (c : ℕ) (bs : Bytes)
      → x3.char_ f (c ∷ bs) ≡ (if f c then some (c, bs) else none)
  pub eol_end : x3.eol [] ≡ none
  pub eol_newline : (bs : Bytes) → x3.eol (10 ∷ bs) ≡ some (tt, bs)
  pub eol_return : (bs : Bytes) → (rest : Bytes) × (x3.eol (13 ∷ bs) ≡ some (tt, rest))
  pub eol_fails : (c : ℕ) (bs : Bytes) → c ≢ 13 → c ≢ 10 → x3.eol (c ∷ bs) ≡ none
  pub space_matched :
      (bs : Bytes) (c : ℕ) (rest : Bytes) → x3.space bs ≡ some (c, rest) → bs ≡ c ∷ rest
  pub space_fails : (c : ℕ) (bs : Bytes) → is_space c ≡ false → x3.space (c ∷ bs) ≡ none
  pub eoi_end : x3.eoi [] ≡ some (tt, [])
  pub eoi_fails : (c : ℕ) (bs : Bytes) → x3.eoi (c ∷ bs) ≡ none
  pub except_is :
      {A B : Type 0} (p : Parser A) (q : Parser B) (bs : Bytes)
      → x3.except p q bs ≡ elim (q bs) [ none ↦ p bs | some r ↦ none ]
  pub seq_is :
      {A B : Type 0} (p : Parser A) (q : Parser B) (bs : Bytes)
      → x3.seq p q bs ≡ elim (p bs) [ none ↦ none | some r ↦ on (λ b. (r.0, b)) q r.1 ]
  pub alt_is :
      {A : Type 0} (p q : Parser A) (bs : Bytes)
      → x3.alt p q bs ≡ elim (p bs) [ none ↦ q bs | some r ↦ some r ]
  pub many_is :
      {A : Type 0} (p : Parser A) (bs : Bytes)
      → Consumes p
      → x3.many p bs
        ≡ elim (p bs) [ none ↦ some ([], bs) | some r ↦ on (λ l. r.0 ∷ l) (x3.many p) r.1 ]
  pub many1_is :
      {A : Type 0} (p : Parser A) (bs : Bytes)
      → Consumes p
      → x3.many1 p bs ≡ elim (p bs) [ none ↦ none | some r ↦ on (λ l. r.0 ∷ l) (x3.many p) r.1 ]
  pub optional_is :
      {A : Type 0} (p : Parser A) (bs : Bytes)
      → x3.optional p bs ≡ elim (p bs) [ none ↦ some (none, bs) | some r ↦ some (some r.0, r.1) ]
  pub phrase_parse_is :
      {A : Type 0} (p : Parser A) (skipped : ℕ) (bs : Bytes)
      → All (λ b. b ≢ skipped) bs
      → x3.phrase_parse p skipped bs ≡ elim (p bs) [ none ↦ none | some r ↦ some r.0 ]
