-- ===== src/Io/Stream/Buffers/Refinement.antt =====
-- The stream buffers refine the streams of bytes that the readers and writers are modelled with.
use mathlib.Core.Path.{subst}
use ozo.Prelude.{
  ◌^◌, ◌%◌, lt→ltb, ℕ, zero, suc, ◌+◌, ◌<◌, ◌≤◌, ◌≡◌, refl, ap, sym, ◌∙◌, true, false, ◌⊎◌, inl,
  inr, arith, List, [], ◌∷◌, ◌==◌, length, take, drop, length-drop, drop-drop, length-take_all,
  length-take_some, drop_end, drop_at, get_elem?, Bytes, Option-cases, ==_self,
}
use ozo.Prelude.Result.{Result, ok, err, ◌>>=◌, Result-cases}
use ozo.Io.Stream.{Failure, Io, unexpected_eof, read_raw, read_char}
use ozo.Io.Stream.Buffers.{
  IstreambufView, available, gbump, xsgetn, sbumpc, Istream, read_chars, get_char, read_data,
  read_byte, Read, data_of, one_char, read_one, read_all,
}

-- The bytes that the view has not handed out yet.
abbrev pub bytes_left : IstreambufView → Bytes
bytes_left view = drop view.gptr view.chars

-- The same reads on a stream of bytes.
abbrev pub read_one_left : Read → Bytes → Io Bytes
read_one_left (data_of n) bytes = read_raw n bytes
read_one_left one_char bytes = do (c, rest) ← read_char bytes; ok (c ∷ [], rest)

abbrev pub read_all_left : List Read → Bytes → Io (List Bytes)
read_all_left [] bytes = ok ([], bytes)
read_all_left (r ∷ reads) bytes = do
  (out, rest) ← read_one_left r bytes
  (outs, last) ← read_all_left reads rest
  ok (out ∷ outs, last)

-- What is seen of an outcome when the position is forgotten.
abbrev pub forget {ℓ} : {A : Type ℓ} → Result Failure (A × Istream) → Io A
forget r = do (out, input) ← r; ok (out, bytes_left input.view)

read_raw-take : (n : ℕ) (bs : Bytes) → n ≤ length bs → read_raw n bs ≡ ok (take n bs, drop n bs)
unfolding read_raw
read_raw-take zero bs h = refl
read_raw-take (suc n) [] h = absurd (omega arith)
read_raw-take (suc n) (b ∷ bs) h = rw (read_raw-take n bs (omega arith)) refl

read_raw_end : (n : ℕ) (bs : Bytes) → length bs < n → read_raw n bs ≡ err unexpected_eof
unfolding read_raw
read_raw_end zero bs h = absurd (omega arith)
read_raw_end (suc n) [] h = refl
read_raw_end (suc n) (b ∷ bs) h = rw (read_raw_end n bs (omega arith)) refl

-- A view that still has `n` characters hands them out; any other hands out fewer.
available_enough :
    (n : ℕ) (view : IstreambufView) → n ≤ length (bytes_left view) → available n view ≡ n
unfolding available
available_enough n view h = let eq = length-drop view.gptr view.chars in ground (arith, h, eq)

available_few :
    (n : ℕ) (view : IstreambufView)
    → length (bytes_left view) < n
    → available n view ≡ length (bytes_left view)
unfolding available
available_few n view h = let eq = length-drop view.gptr view.chars in ground (arith, h, eq)

-- A count that an `int` can hold moves the pointer by as much.
gbump_small :
    (n : ℕ) (view : IstreambufView)
    → n < 2 ^ 31
    → gbump n view ≡ record view { gptr = view.gptr + n }
unfolding gbump
gbump_small n view h =
    let same : n % 2 ^ 32 ≡ n = omega arith in rw (same, lt→ltb n (2 ^ 31) h) refl

-- A view of as much as an `int` can count.
abbrev pub IsView : IstreambufView → Type 0
IsView view = length view.chars < 2 ^ 31

read_data-enough :
    (n : ℕ) (view : IstreambufView)
    → IsView view
    → n ≤ length (bytes_left view)
    → read_data n (record { view = view; is_good = true })
      ≡ ok (
        take n (bytes_left view),
        record { view = record view { gptr = view.gptr + n }; is_good = true },
      )
unfolding read_data read_chars xsgetn
read_data-enough n view k h =
    let left = length-drop view.gptr view.chars in
    let small : n < 2 ^ 31 = omega (arith, left, k, h) in
    rw
      (
        read_data,
        available_enough n view h,
        gbump_small n view small,
        length-take_all n (bytes_left view) h,
        ==_self n,
      )
      refl

le_or_lt : (m n : ℕ) → (m ≤ n) ⊎ (n < m)
le_or_lt m n = ground arith

length_short : (m n : ℕ) → m < n → (m == n) ≡ false
length_short m n h = ground arith

read_data_short :
    (n : ℕ) (view : IstreambufView)
    → length (bytes_left view) < n
    → read_data n (record { view = view; is_good = true }) ≡ err unexpected_eof
unfolding read_data read_chars xsgetn
read_data_short n view h =
    rw
      (
        read_data,
        available_few n view h,
        length-take_some (bytes_left view),
        length_short (length (bytes_left view)) n h,
      )
      refl

abbrev good : IstreambufView → Istream
good view = record { view = view; is_good = true }

-- One read ends both ways with the end of the stream, or gives the same from both, and leaves a good
-- stream with the bytes that are left.
abbrev Agrees : Read → IstreambufView → Type 0
Agrees r view =
    ((read_one r (good view) ≡ err unexpected_eof)
      × (read_one_left r (bytes_left view) ≡ err unexpected_eof))
    ⊎ ((out : Bytes) × (behind : IstreambufView) × (behind.chars ≡ view.chars)
        × (read_one r (good view) ≡ ok (out, good behind))
        × (read_one_left r (bytes_left view) ≡ ok (out, bytes_left behind)))

read_data-Agrees : (n : ℕ) (view : IstreambufView) → IsView view → Agrees (data_of n) view
unfolding read_one
read_data-Agrees n view k = elim (le_or_lt n (length (bytes_left view))) [
  | inl h ↦ inr (
    take n (bytes_left view),
    record view { gptr = view.gptr + n },
    refl,
    read_data-enough n view k h,
    read_raw-take n (bytes_left view) h
        ∙ ap (λ rest. ok (take n (bytes_left view), rest)) (drop-drop view.gptr n view.chars),
  )
  | inr h ↦ inl (read_data_short n view h, read_raw_end n (bytes_left view) h)
]

read_byte-Agrees : (view : IstreambufView) → Agrees one_char view
unfolding read_one read_byte get_char sbumpc read_char
read_byte-Agrees view = elim (Option-cases (get_elem? view.chars view.gptr)) [
  | inl e ↦ inl (rw (read_byte, e) refl, rw (drop_end view.gptr view.chars e) refl)
  | inr e ↦ inr (
    e.0 ∷ [],
    record view { gptr = view.gptr + 1 },
    refl,
    rw (read_byte, e.1) refl,
    rw (drop_at view.gptr view.chars e.0 e.1) refl,
  )
]

read_one-Agrees : (r : Read) (view : IstreambufView) → IsView view → Agrees r view
read_one-Agrees (data_of n) view k = read_data-Agrees n view k
read_one-Agrees one_char view k = read_byte-Agrees view

-- Any chain of reads on a good stream over fewer than 2 ^ 31 characters gives what the same chain gives on the bytes that its view has
-- left: the same data and the same bytes left, or the end of the stream at the same read.
pub read_all-bytes_left :
    (reads : List Read) (view : IstreambufView)
    → IsView view
    → forget (read_all reads (record { view = view; is_good = true }))
      ≡ read_all_left reads (bytes_left view)
unfolding read_all
read_all-bytes_left [] view k = refl
read_all-bytes_left (r ∷ reads) view k = elim (read_one-Agrees r view k) [
  | inl (e, e') ↦ rw (e, e') refl
  | inr (out, behind, same, e, e') ↦
      let rest =
        read_all-bytes_left reads behind (subst (λ chars. length chars < 2 ^ 31) (sym same) k) in
      elim (Result-cases (read_all reads (good behind))) [
        | inl m ↦ rw (e, e', sym rest, m.1) refl
        | inr m ↦ rw (e, e', sym rest, m.1) refl
      ]
]
