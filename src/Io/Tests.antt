-- ===== src/Io/Tests.antt =====
-- Objects on which the theorems about binary input and output are tried.
use ozo.Prelude.{false, ◌%◌, ◌^◌, ◌≡◌, refl, [], ◌∷◌, ◌++◌, some, arith, length, length-append}
use ozo.Prelude.Result.{ok}
use ozo.Io.Types.{
  int2, int4, text, Ty, scalar, nullable, array, composite, custom, end, member, El, init,
  scalar_oid, static_size, type_size, is_some,
}
use ozo.Io.OidMap.{accepts_oid, OidMap, IsOidMap, single, vector_of, type_oid, at_key, key_eq}
use ozo.Io.SizeOf.{size_of, size_of_scalar, array_data_size, members_data_size}
use ozo.Io.Send.{send, send_scalar, fields_number}
use ozo.Io.Recv.{recv}
use ozo.Io.Fits.{Fits}
use ozo.Io.Length.{NullFree}
use ozo.Io.Length.Objects.{size_of-send}
use ozo.Io.Length.Nulls.{size_of-nulls, nulls}
use ozo.Io.RoundTrip.{recv-send}
use ozo.Io.BinaryQuery.{Param, make_impl}
use ozo.Io.BinaryQuery.Layout.{IsPlain, sent, all_sent, AllPointTo, make_impl-AllPointTo}
use ozo.Io.Stream.{write_integral}
use ozo.Io.Stream.RoundTrip.{length-write_integral}

abbrev oids : OidMap
oids = (single 0, 20000) ∷ (vector_of 0, 20001) ∷ []

oids-IsOidMap : IsOidMap oids
oids-IsOidMap = (omega arith, (omega arith, tt))

-- A structure of a number, a nullable text and an array of numbers.
abbrev note : Ty
note =
    composite (custom 0)
      (member (scalar int4) (member (nullable (scalar text)) (member (array (scalar int2)) end)))

abbrev hello : El note
hello = (7, (some (b'h' ∷ b'i' ∷ []), (1 ∷ 2 ∷ [], tt)))

hello-Fits : Fits note hello
unfolding size_of size_of_scalar array_data_size members_data_size fields_number static_size
    type_size is_some
hello-Fits = (
  omega arith,
  omega arith,
  (
    omega arith,
    (
      (omega arith, omega arith),
      ((omega arith, omega arith, (omega arith, (omega arith, tt))), tt),
    ),
  ),
)

recv-send_example :
    recv oids note (some 20000) (size_of note hello) (init note) (send oids note hello ++ 9 ∷ [])
    ≡ ok (hello, 9 ∷ [])
unfolding type_oid at_key key_eq
recv-send_example = recv-send oids note hello (9 ∷ []) oids-IsOidMap hello-Fits

hello-NullFree : NullFree note hello
hello-NullFree = (omega arith, (omega arith, ((omega arith, (omega arith, tt)), tt)))

size_of-send_example : size_of note hello ≡ length (send oids note hello) % 2 ^ 32
size_of-send_example = size_of-send oids note hello hello-NullFree

size_of-nulls_example :
    (size_of (array (nullable (scalar int4))) (nulls (scalar int4) 3) ≡ 29)
    × (length (send oids (array (nullable (scalar int4))) (nulls (scalar int4) 3)) ≡ 32)
size_of-nulls_example = size_of-nulls oids (scalar int4) 3 (omega arith)

abbrev number : Param
number = record { ty = scalar int4; value = 258 }

abbrev word : Param
word = record { ty = scalar text; value = b'h' ∷ b'i' ∷ [] }

number-IsPlain : IsPlain oids number
unfolding send send_scalar write_integral
number-IsPlain = (omega arith, omega (arith, length-write_integral 4 258))

word-IsPlain : IsPlain oids word
unfolding send send_scalar
word-IsPlain = (omega arith, omega arith)

all_sent-two : length (all_sent oids (number ∷ word ∷ [])) ≡ 6
unfolding send send_scalar
all_sent-two =
    omega
      (arith, length-append (write_integral 4 258) (b'h' ∷ b'i' ∷ []), length-write_integral 4 258)

make_impl-AllPointTo_example :
    let q = make_impl oids (number ∷ word ∷ []) in
    (q.types ≡ 23 ∷ 25 ∷ [])
    × (q.formats ≡ 1 ∷ 1 ∷ [])
    × (q.lengths ≡ length (sent oids number) ∷ length (sent oids word) ∷ [])
    × AllPointTo oids q.buffer (number ∷ word ∷ []) q.values
unfolding type_oid scalar_oid
make_impl-AllPointTo_example =
    make_impl-AllPointTo oids (number ∷ word ∷ []) (number-IsPlain, (word-IsPlain, tt))
      (omega (arith, all_sent-two))

other_oid : accepts_oid oids (scalar text) 23 ≡ false
unfolding accepts_oid type_oid scalar_oid
other_oid = refl
