-- ===== src/Response/Blocks/Whole.antt =====
-- Bytes that are one whole column for shared/skip_column.rs: of a fixed width, of strings, and of a
-- nullable type.
use st_clickhouse_lib.Common.{
  ℕ, suc, ◌+◌, ◌*◌, ◌≤◌, ◌<◌, ◌≡◌, ap, subst, List, [], ◌∷◌, ◌++◌, length, some, ok, map_err, All,
  arith, ne→==, String,
}
use st_clickhouse_lib.Error.{protocol}
use st_clickhouse_lib.ColumnType.{ColumnType, string, nullable}
use st_clickhouse_lib.Limits.Caps.{
  max_string_bytes, max_column_bytes, checked_string_len, usize_try_from,
}
use st_clickhouse_lib.Wire.Cursor.{done, repeat}
use st_clickhouse_lib.Wire.Parse.{parse_varint}
use st_clickhouse_lib.Wire.Write.{write_varint, write_string}
use st_clickhouse_lib.Wire.Strings.{length_at}
use st_clickhouse_lib.Wire.Parses.{
  Parses, Parses-pure, Parses-lift, Parses-bind, Parses-checked, Parses-parse_varint,
}
use st_clickhouse_lib.Skip.State.{Skipper}
use st_clickhouse_lib.Skip.Primitives.{advance_pos, skip_string_rows}
use st_clickhouse_lib.Skip.Dispatch.{skipper, skip_column_data, skip_rows}
use st_clickhouse_lib.Skip.Fixed.{wire_width, column-Exact}
use st_clickhouse_lib.Response.Blocks.RoundTrip.{Parses-advance_pos}

-- As many values as rows, of the width on the wire.
pub Parses-fixed :
    (fuel : ℕ) (ct : ColumnType) (rows width : ℕ) (data_bytes : List ℕ)
    → wire_width ct ≡ some width
    → length data_bytes ≡ rows * width
    → rows * width ≤ max_column_bytes
    → Parses ((skipper (suc fuel)).column ct rows) tt data_bytes
unfolding Parses skipper
Parses-fixed fuel ct rows width data_bytes wide sized few buf rest pos at =
    let ends = length_at buf pos data_bytes rest at.inside at.here in
    subst (λ (n : ℕ). skip_column_data (skipper fuel) ct rows buf pos ≡ done tt (pos + n))
      {x = rows * width} {y = length data_bytes} (omega (arith, sized))
      ((column-Exact (skipper fuel) ct rows width wide buf pos at.inside at.small few).0
        (omega (arith, sized, ends)))

some_rows :
    (s : Skipper) (ct : ColumnType) (rows : ℕ) (bs : List ℕ)
    → 0 < rows
    → Parses (skip_rows s ct rows) tt bs
    → Parses (skip_column_data s ct rows) tt bs
unfolding skip_column_data
some_rows s ct rows bs more h = rw (ne→== rows 0 (λ e. omega arith), skip_column_data) h

-- The values of a String column.
unfoldable pub string_bytes : List (List ℕ) → List ℕ
unfolding write_string
string_bytes [] = []
string_bytes (s ∷ values) = write_string s ++ string_bytes values

abbrev pub Short : List ℕ → Type 0
Short s = length s ≤ max_string_bytes

string_len-fits : (n : ℕ) (what : String) → n ≤ max_string_bytes → checked_string_len n what ≡ ok n
unfolding checked_string_len usize_try_from
string_len-fits n what h = ground arith

Parses-string_rows :
    (values : List (List ℕ)) (what : String)
    → All Short values
    → Parses (skip_string_rows (length values) what) tt (string_bytes values)
unfolding skip_string_rows repeat string_bytes write_string
Parses-string_rows [] what h = Parses-pure tt
Parses-string_rows (s ∷ values) what h =
    Parses-bind _ _ tt tt (write_varint (length s) ++ s) _
      (Parses-bind parse_varint _ (length s) tt (write_varint (length s)) s
        (Parses-parse_varint (length s) (omega (arith, h.0)))
        (Parses-checked _ _ (length s) tt s
          (Parses-lift _ (length s) (ap (map_err protocol) (string_len-fits (length s) what h.0)))
          (Parses-advance_pos s)))
      (Parses-string_rows values what h.1)

pub Parses-strings :
    (fuel : ℕ) (values : List (List ℕ))
    → All Short values
    → Parses ((skipper (suc fuel)).column string (length values)) tt (string_bytes values)
unfolding skipper skip_rows string_bytes skip_column_data
Parses-strings fuel [] h = Parses-pure tt
Parses-strings fuel (s ∷ values) h =
    some_rows (skipper fuel) string (suc (length values)) _ (omega arith)
      (Parses-string_rows (s ∷ values) "string value length" h)

-- A null map with a byte for each row, and the values behind it.
pub Parses-nullable :
    (fuel : ℕ) (inner : ColumnType) (nulls values : List ℕ)
    → 0 < length nulls
    → Parses ((skipper fuel).column inner (length nulls)) tt values
    → Parses ((skipper (suc fuel)).column (nullable inner) (length nulls)) tt (nulls ++ values)
unfolding skipper skip_rows
Parses-nullable fuel inner nulls values more h =
    some_rows (skipper fuel) (nullable inner) (length nulls) (nulls ++ values) more
      (Parses-bind (advance_pos (length nulls)) _ tt tt nulls values (Parses-advance_pos nulls) h)
