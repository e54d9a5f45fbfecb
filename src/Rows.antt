-- ===== src/Rows.antt =====
-- include/ozo/impl/result.h and result.h: the proxies of a result of libpq, its rows and its values,
-- with their iterators. An `int` is its bit pattern, and `int` arithmetic wraps. The pointer to the
-- result, which all coordinates of one result share, is a parameter.
pub mod Receive
pub mod Visit
pub mod Access
pub mod Columns
pub mod RoundTrip
pub mod Overwrite
pub mod Partial
mod Tests
use ozo.Prelude.{
  ℕ, zero, suc, ◌+◌, ◌-◌, ◌%◌, ◌^◌, Bool, true, false, List, [], ◌∷◌, Option, none, some, Bytes,
  ◌==◌, leb, ◌||◌, ◌&&◌, if◌then◌else◌, take, ◌≡◌, ◌<◌,
}
use ozo.Prelude.Result.{Result, ok, err, ◌>>=◌, throw_if}
use ozo.Io.Recv.{is_negative}

-- A `PGresult`, as libpq's functions give it: the column's type oid and format code, the bytes that a
-- value's pointer leads to, its length and whether it is null, the number of a column (`none` is -1),
-- and the numbers of columns and rows.
pub record PgResult : Type 0 where
  pub pq_ftype : ℕ → ℕ
  pub pq_fformat : ℕ → ℕ
  pub pq_getvalue : ℕ → ℕ → Bytes
  pub pq_getlength : ℕ → ℕ → ℕ
  pub pq_getisnull : ℕ → ℕ → Bool
  pub pq_fnumber : Bytes → Option ℕ
  pub pq_nfields : ℕ
  pub pq_ntuples : ℕ

-- `value::coordinates`, which are also the state of the iterators.
pub record Coordinates : Type 0 where
  pub row : ℕ
  pub col : ℕ

-- What the proxies throw: `std::out_of_range`, of `row::at` by index and by name, and `result::at`.
pub data OutOfRange : Type 0 where
  field_index no_such_field row_out_of_range : OutOfRange

-- `int` addition
unfoldable pub add_int : ℕ → ℕ → ℕ
add_int a b = (a + b) % 2 ^ 32

-- `static_cast<std::size_t>` of an `int`
unfoldable pub to_size : ℕ → ℕ
to_size n = if is_negative n then 2 ^ 64 - 2 ^ 32 + n else n

-- `const_iterator::advance` and `equal`, of the values of a row and of the rows of a result; and
-- `operator[]` of each
unfoldable pub advance_col : ℕ → Coordinates → Coordinates
advance_col n v = record v { col = add_int v.col n }

unfoldable pub row_index : ℕ → Coordinates → Coordinates
row_index index first = advance_col index first

unfoldable pub equal_value : Coordinates → Coordinates → Bool
equal_value v w = v.col == w.col && v.row == w.row

unfoldable pub advance_row : ℕ → Coordinates → Coordinates
advance_row n v = record v { row = add_int v.row n }

unfoldable pub equal_row : Coordinates → Coordinates → Bool
equal_row v w = v.row == w.row

unfoldable pub result_begin : Coordinates
result_begin = record { row = 0; col = 0 }

unfoldable pub result_index : ℕ → Coordinates
result_index i = advance_row i result_begin

module _ (res : PgResult) where
  -- The functions of impl/result.h.
  abbrev pub field_type : ℕ → ℕ
  field_type column = res.pq_ftype column

  abbrev pub field_format : ℕ → ℕ
  field_format column = res.pq_fformat column

  abbrev pub get_value : ℕ → ℕ → Bytes
  get_value row column = res.pq_getvalue row column

  abbrev pub get_length : ℕ → ℕ → ℕ
  get_length row column = to_size (res.pq_getlength row column)

  abbrev pub get_isnull : ℕ → ℕ → Bool
  get_isnull row column = res.pq_getisnull row column

  abbrev pub field_number : Bytes → Option ℕ
  field_number name = res.pq_fnumber name

  abbrev pub nfields : ℕ
  nfields = res.pq_nfields

  abbrev pub ntuples : ℕ
  ntuples = res.pq_ntuples

  -- `value`
  unfoldable pub value_oid : Coordinates → ℕ
  value_oid v = field_type v.col

  unfoldable pub is_text : Coordinates → Bool
  is_text v = field_format v.col == 0

  unfoldable pub is_binary : Coordinates → Bool
  is_binary v = field_format v.col == 1

  unfoldable pub value_size : Coordinates → ℕ
  value_size v = get_length v.row v.col

  -- The bytes of `data()`, up to `size()`.
  unfoldable pub value_data : Coordinates → Bytes
  value_data v = take (value_size v) (get_value v.row v.col)

  unfoldable pub is_null : Coordinates → Bool
  is_null v = get_isnull v.row v.col

  -- `row`, given its first coordinates
  unfoldable pub row_size : ℕ
  row_size = to_size nfields

  unfoldable pub row_end : Coordinates → Coordinates
  row_end first = advance_col (row_size % 2 ^ 32) first

  unfoldable pub find : Bytes → Coordinates → Coordinates
  find name first = elim (field_number name) [ none ↦ row_end first | some i ↦ advance_col i first ]

  unfoldable pub row_at : ℕ → Coordinates → Result OutOfRange Coordinates
  row_at index first =
      if is_negative index || leb row_size (to_size index)
      then err field_index
      else ok (row_index index first)

  unfoldable pub row_at_name : Bytes → Coordinates → Result OutOfRange Coordinates
  row_at_name name first =
      let i = find name first in if equal_value i (row_end first) then err no_such_field else ok i

  unfoldable pub row_empty : Bool
  row_empty = row_size == 0

  -- `basic_result`
  unfoldable pub result_size : ℕ
  result_size = to_size ntuples

  unfoldable pub result_end : Coordinates
  result_end = advance_row (result_size % 2 ^ 32) result_begin

  unfoldable pub result_empty : Bool
  result_empty = result_size == 0

  unfoldable pub result_at : ℕ → Result OutOfRange Coordinates
  result_at i =
      if is_negative i || leb result_size (to_size i)
      then err row_out_of_range
      else ok (result_index i)

-- What libpq promises of a result: counts and lengths are not negative, and the number of a column is
-- below their count.
abbrev pub IsPgResult : PgResult → Type 0
IsPgResult res =
    (res.pq_nfields < 2 ^ 31)
    × (res.pq_ntuples < 2 ^ 31)
    × ((row col : ℕ) → res.pq_getlength row col < 2 ^ 31)
    × ((name : Bytes) (i : ℕ) → res.pq_fnumber name ≡ some i → i < res.pq_nfields)
