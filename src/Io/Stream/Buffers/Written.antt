-- ===== src/Io/Stream/Buffers/Written.antt =====
-- What is written into a stream buffer, and read back from a view of it.
use ozo.Prelude.{
  ◌^◌, ◌<◌, ℕ, ◌%◌, ◌≡◌, refl, ap, sym, ◌∙◌, true, false, arith, List, map, [], ◌∷◌, ◌++◌, ◌==◌,
  length, Bytes, append-nil, append_assoc, ==_self,
}
use ozo.Prelude.Result.{ok}
use ozo.Io.Stream.{read_char, write_char}
use ozo.Io.Stream.RoundTrip.{read_raw-append}
use ozo.Io.Stream.Buffers.{
  istreambuf_view, Read, data_of, one_char, read_all, Ostream, eof, overflow, xsputn, put_char,
  write_chars, Write, put_one, put_data, written, write_one, write_all,
}
use ozo.Io.Stream.Buffers.Refinement.{read_one_left, read_all_left, forget, read_all-bytes_left}

-- The characters that a write is about; one of an integer of size 1 is its low byte.
abbrev pub chars_of : Write → Bytes
chars_of (put_one c) = write_char (c % 256)
chars_of (put_data s) = s

abbrev pub all_chars : List Write → Bytes
all_chars [] = []
all_chars (w ∷ writes) = chars_of w ++ all_chars writes

not_eof : (c : ℕ) → (c % 256 == eof) ≡ false
not_eof c = ground arith

written-chars_of :
    (w : Write) (buf : Bytes)
    → written w (record { buf = buf; is_good = true })
      ≡ record { buf = buf ++ chars_of w; is_good = true }
unfolding written put_char write_chars overflow xsputn write_char
written-chars_of (put_one c) buf =
    let low : c % 256 % 256 ≡ c % 256 = omega arith in rw (not_eof c, low) refl
written-chars_of (put_data s) buf = rw (==_self (length s)) refl

-- Any chain of writes on a good stream puts exactly its characters behind what the vector holds: no
-- write fails, and no character is taken for `eof()`.
pub write_all-all_chars :
    (writes : List Write) (buf : Bytes)
    → write_all writes (record { buf = buf; is_good = true })
      ≡ ok (record { buf = buf ++ all_chars writes; is_good = true })
unfolding write_all write_one
write_all-all_chars [] buf =
    ap (λ b. ok (record { buf = b; is_good = true })) (sym (append-nil buf))
write_all-all_chars (w ∷ writes) buf = rw (written-chars_of w buf) (
    write_all-all_chars writes (buf ++ chars_of w)
    ∙ ap (λ b. ok (record { buf = b; is_good = true }))
        (append_assoc buf (chars_of w) (all_chars writes)))

-- The read that fetches what a write has put.
abbrev pub read_of : Write → Read
read_of (put_one c) = one_char
read_of (put_data s) = data_of (length s)

read_one_left-read_of :
    (w : Write) (rest : Bytes)
    → read_one_left (read_of w) (chars_of w ++ rest) ≡ ok (chars_of w, rest)
unfolding read_char write_char
read_one_left-read_of (put_one c) rest = refl
read_one_left-read_of (put_data s) rest = read_raw-append (length s) s rest refl

read_all_left-map :
    (writes : List Write) (rest : Bytes)
    → read_all_left (map read_of writes) (all_chars writes ++ rest) ≡ ok (map chars_of writes, rest)
read_all_left-map [] rest = refl
read_all_left-map (w ∷ writes) rest =
    rw
      (
        append_assoc (chars_of w) (all_chars writes) rest,
        read_one_left-read_of w (all_chars writes ++ rest),
        read_all_left-map writes rest,
      )
      refl

-- A chain of writes of fewer than 2 ^ 31 characters into an empty vector succeeds, and the reads of the same sizes from a view of
-- that vector fetch what each write was about, in order, up to the end.
pub read_all-write_all :
    (writes : List Write)
    → length (all_chars writes) < 2 ^ 31
    → (output : Ostream) × (write_all writes (record { buf = []; is_good = true }) ≡ ok output)
      × (forget (
            read_all
              (map read_of writes)
              (record { view = istreambuf_view output.buf; is_good = true }))
          ≡ ok (map chars_of writes, []))
unfolding istreambuf_view
read_all-write_all writes h = (
  record { buf = all_chars writes; is_good = true },
  write_all-all_chars writes [],
  read_all-bytes_left (map read_of writes) (istreambuf_view (all_chars writes)) h
      ∙ ap (read_all_left (map read_of writes)) (sym (append-nil (all_chars writes)))
      ∙ read_all_left-map writes [],
)
