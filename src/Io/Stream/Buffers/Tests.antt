-- ===== src/Io/Stream/Buffers/Tests.antt =====
-- Runs of the stream buffers.
use ozo.Prelude.{◌^◌, arith, ◌≡◌, refl, true, List, [], ◌∷◌, map}
use ozo.Prelude.Result.{ok, err}
use ozo.Io.Stream.{unexpected_eof, write_char}
use ozo.Io.Stream.Buffers.{
  istreambuf_view, available, gbump, xsgetn, sbumpc, read_chars, get_char, read_data, read_byte,
  Read, data_of, one_char, read_one, read_all, Ostream, Write, put_one, put_data, write_all,
}
use ozo.Io.Stream.Buffers.Refinement.{forget, read_all_left, read_all-bytes_left}
use ozo.Io.Stream.Buffers.Written.{read_of, chars_of, read_all-write_all}

-- The view stands at its second byte; the third read finds too few.
abbrev some_reads : List Read
some_reads = one_char ∷ data_of 2 ∷ data_of 2 ∷ []

stops_at_end :
    read_all some_reads
      (record { view = record { chars = 1 ∷ 2 ∷ 3 ∷ 4 ∷ 5 ∷ []; gptr = 1 }; is_good = true })
    ≡ err unexpected_eof
unfolding read_all read_one read_byte get_char sbumpc read_data read_chars xsgetn available gbump
stops_at_end = refl

read_all-bytes_left_example :
    forget (
      read_all some_reads (record {
        view = record { chars = 1 ∷ 2 ∷ 3 ∷ 4 ∷ 5 ∷ 6 ∷ 7 ∷ []; gptr = 1 };
        is_good = true;
      }))
    ≡ read_all_left some_reads (2 ∷ 3 ∷ 4 ∷ 5 ∷ 6 ∷ 7 ∷ [])
read_all-bytes_left_example =
    read_all-bytes_left some_reads (record { chars = 1 ∷ 2 ∷ 3 ∷ 4 ∷ 5 ∷ 6 ∷ 7 ∷ []; gptr = 1 })
      (omega arith)

-- A byte of all ones between raw data.
abbrev some_writes : List Write
some_writes = put_data (7 ∷ 8 ∷ 9 ∷ []) ∷ put_one 255 ∷ put_data (1 ∷ []) ∷ []

read_all-write_all_example :
    (output : Ostream) × (write_all some_writes (record { buf = []; is_good = true }) ≡ ok output)
    × (forget (
          read_all
            (map read_of some_writes)
            (record { view = istreambuf_view output.buf; is_good = true }))
        ≡ ok (map chars_of some_writes, []))
unfolding write_char
read_all-write_all_example = read_all-write_all some_writes (omega arith)

-- A count of 2 ^ 31 moves the pointer back.
moves_back : (gbump (2 ^ 31) (record { chars = []; gptr = 2 ^ 32 })).gptr ≡ 2 ^ 31
unfolding gbump
moves_back = refl
