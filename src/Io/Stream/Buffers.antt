-- ===== src/Io/Stream/Buffers.antt =====
-- include/ozo/detail/istream.h and detail/ostream.h under impl/read.h and impl/write.h: the stream
-- buffers as they work, a view with a get pointer and a vector that characters are put into, and the
-- operations of std::istream and std::ostream that the code calls on them.
pub mod Refinement
pub mod Written
mod Tests
use ozo.Prelude.{
  ℕ, ◌+◌, ◌-◌, ◌%◌, ◌^◌, Bool, true, false, not, Option, none, some, List, [], ◌∷◌, ◌++◌, ◌==◌, leb,
  ltb, if◌then◌else◌, length, take, drop, get_elem?, Bytes,
}
use ozo.Prelude.Result.{Result, ok, err, ◌>>=◌}
use ozo.Io.Stream.{Failure, unexpected_eof}

-- `istreambuf_view`: `eback` is the start of the data and `egptr` its end.
pub record IstreambufView : Type 0 where
  pub chars : Bytes
  pub gptr : ℕ

-- `istreambuf_view(data, len)`
unfoldable pub istreambuf_view : Bytes → IstreambufView
istreambuf_view chars = record { chars = chars; gptr = 0 }

-- `n = std::min(n, egptr() - gptr());`
unfoldable pub available : ℕ → IstreambufView → ℕ
available n view = let left = length view.chars - view.gptr in if leb n left then n else left

-- `gbump(n)` takes an `int`: a count from 2 ^ 31 on is converted to its value modulo 2 ^ 32 between
-- - 2 ^ 31 and 2 ^ 31 - 1, and moves the pointer back where that is negative.
unfoldable pub gbump : ℕ → IstreambufView → IstreambufView
gbump n view =
    let count = n % 2 ^ 32 in
    record view {
      gptr = if ltb count (2 ^ 31) then view.gptr + count else view.gptr - (2 ^ 32 - count);
    }

-- What is copied, and the view that it leaves.
unfoldable pub xsgetn : ℕ → IstreambufView → Bytes × IstreambufView
xsgetn n view =
    let count = available n view in (take count (drop view.gptr view.chars), gbump count view)

-- `sbumpc` of std::streambuf, whose `underflow` is not overridden: `none` is `traits::eof()`.
unfoldable pub sbumpc : IstreambufView → Option ℕ × IstreambufView
sbumpc view = elim (get_elem? view.chars view.gptr) [
  | none ↦ (none, view)
  | some c ↦ (some c, record view { gptr = view.gptr + 1 })
]

-- `detail::istream`, and whether its state is good.
pub record Istream : Type 0 where
  pub view : IstreambufView
  pub is_good : Bool

-- `in.read(s, n)` sets `failbit` and `eofbit` if fewer characters come.
unfoldable pub read_chars : ℕ → Istream → Bytes × Istream
read_chars n input =
    let got = xsgetn n input.view in
    if input.is_good
    then (got.0, record { view = got.1; is_good = length got.0 == n })
    else ([], input)

-- `in.get()`
unfoldable pub get_char : Istream → Option ℕ × Istream
get_char input =
    let got = sbumpc input.view in
    if input.is_good
    then (got.0, record { view = got.1; is_good = elim got.0 [ none ↦ false | some c ↦ true ] })
    else (none, input)

-- `read` of raw data: `in.read(data(out), size(out)); if (!in) throw`
unfoldable pub read_data : ℕ → Istream → Result Failure (Bytes × Istream)
read_data n input =
    let got = read_chars n input in if not (got.1.is_good) then err unexpected_eof else ok got

-- `read` of an integer of size 1: `out = in.get(); if (!in) throw`
unfoldable pub read_byte : Istream → Result Failure (Bytes × Istream)
read_byte input =
    let got = get_char input in
    if not (got.1.is_good)
    then err unexpected_eof
    else ok (elim got.0 [ none ↦ [] | some c ↦ c ∷ [] ], got.1)

-- What the code asks of a stream: raw data of a size, or a character.
pub data Read : Type 0 where
  data_of : ℕ → Read
  one_char : Read

unfoldable pub read_one : Read → Istream → Result Failure (Bytes × Istream)
read_one (data_of n) input = read_data n input
read_one one_char input = read_byte input

-- Any of the code's readers makes a chain of such calls, in which an exception ends the chain.
unfoldable pub read_all : List Read → Istream → Result Failure (List Bytes × Istream)
read_all [] input = ok ([], input)
read_all (r ∷ reads) input = do
  (out, behind) ← read_one r input
  (outs, last) ← read_all reads behind
  ok (out ∷ outs, last)

-- `detail::ostream` on an `ostreambuf`: the vector, and whether the state is good.
pub record Ostream : Type 0 where
  pub buf : Bytes
  pub is_good : Bool

-- The `int_type` of a character, of 32 bits: `to_int_type` reads it as an unsigned char, and `eof()`
-- is -1.
abbrev pub to_int_type : ℕ → ℕ
to_int_type c = c % 256

abbrev pub eof : ℕ
eof = 2 ^ 32 - 1

-- `overflow(ch)` gives the vector back, and `ch`.
unfoldable pub overflow : ℕ → Bytes → Bytes × ℕ
overflow ch buf = (if not (ch == eof) then buf ++ ch % 256 ∷ [] else buf, ch)

-- `xsputn(s, n)` inserts at the end and returns `n`.
unfoldable pub xsputn : Bytes → Bytes → Bytes × ℕ
xsputn s buf = (buf ++ s, length s)

-- `out.put(c)`: the buffer has no put area, so `sputc` calls `overflow`; `badbit` on `eof()`.
unfoldable pub put_char : ℕ → Ostream → Ostream
put_char c output =
    let put = overflow (to_int_type c) output.buf in
    if output.is_good then record { buf = put.0; is_good = not (put.1 == eof) } else output

-- `out.write(s, n)`: `badbit` if fewer than `n` were put.
unfoldable pub write_chars : Bytes → Ostream → Ostream
write_chars s output =
    let put = xsputn s output.buf in
    if output.is_good then record { buf = put.0; is_good = put.1 == length s } else output

-- What the code puts into a stream: an integer of size 1, or raw data.
pub data Write : Type 0 where
  put_one : ℕ → Write
  put_data : Bytes → Write

-- `write` of either: the call, then `if (!out) throw system_error(error::unexpected_eof);`
unfoldable pub written : Write → Ostream → Ostream
written (put_one c) output = put_char c output
written (put_data s) output = write_chars s output

unfoldable pub write_one : Write → Ostream → Result Failure Ostream
write_one w output =
    let behind = written w output in if not behind.is_good then err unexpected_eof else ok behind

unfoldable pub write_all : List Write → Ostream → Result Failure Ostream
write_all [] output = ok output
write_all (w ∷ writes) output = do behind ← write_one w output; write_all writes behind
