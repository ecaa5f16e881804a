-- ===== src/Skip/Fixed.antt =====
-- Columns of a fixed width (shared/skip_column.rs, and `fixed_width` of shared/type_parser.rs).
use st_clickhouse_lib.Common.{
  ℕ, suc, ◌+◌, ◌*◌, ◌^◌, ◌≤◌, ◌<◌, ◌≡◌, List, [], length, Option, none, some, ok, ltb, ◌==◌, arith,
  Bool-cases, inl, inr, ==→eq, subst,
}
use st_clickhouse_lib.Error.{Error, protocol, message}
use st_clickhouse_lib.ColumnType.{
  ColumnType, uint8, uint16, uint32, uint64, uint128, uint256, int8, int16, int32, int64, int128,
  int256, float32, float64, bool, enum8, enum16, fixed_string, date, date32, date_time, date_time64,
  decimal, uuid, ipv4, ipv6, nothing, time, time64, point, string, nullable, array, map, tuple,
  low_cardinality, aggregate_function, simple_aggregate_function, json, variant, dynamic, ring,
  polygon, multi_polygon, other,
}
use st_clickhouse_lib.ColumnType.Width.{fixed_width, decimal_width, in_range}
use st_clickhouse_lib.Limits.Caps.{max_column_bytes, checked_add, checked_mul, checked_column_len}
use st_clickhouse_lib.Wire.Cursor.{done, fail, Cursor, pure, lift, ◌>>=◌}
use st_clickhouse_lib.TypeParser.Parser.{parse_type}
use st_clickhouse_lib.Skip.State.{Skipper}
use st_clickhouse_lib.Skip.Primitives.{advance_pos, advance_rows, checked_len}
use st_clickhouse_lib.Skip.Dispatch.{
  skipper, skip_column_data_by_name, skip_rows, skip_column_data, skip_decimal,
}

-- Takes exactly `n` bytes where they are there, and fails where they are not.
abbrev pub Exact : ℕ → Cursor (Unit {0}) → Type 0
Exact n m =
    (buf : List ℕ) (pos : ℕ)
    → pos ≤ length buf
    → length buf < 2 ^ 64
    → n ≤ max_column_bytes
    → (pos + n ≤ length buf → m buf pos ≡ done tt (pos + n))
      × (length buf < pos + n → (e : Error) × (m buf pos ≡ fail e pos))

advance_pos-takes : (len : ℕ) → Exact len (advance_pos len)
unfolding advance_pos checked_add
advance_pos-takes len buf pos inside small few = (
  λ fits. ground arith,
  λ short. elim (Bool-cases (ltb (pos + len) (2 ^ 64))) [
    | inl e ↦ (protocol (message "unexpected end of buffer skipping column data" []), ground arith)
    | inr e ↦ (protocol (message "buffer position overflow" []), ground arith)
  ],
)

advance_pos-Exact : (rows : ℕ) → Exact (rows * 1) (advance_pos rows)
advance_pos-Exact rows = subst (λ n. Exact n (advance_pos rows)) (one rows) (advance_pos-takes rows)
  where
    one : (n : ℕ) → n ≡ n * 1
    one n = omega arith

checked_len-ok :
    (rows width : ℕ) → rows * width ≤ max_column_bytes → checked_len rows width ≡ ok (rows * width)
unfolding checked_len checked_column_len checked_mul
checked_len-ok rows width few = ground arith

advance_rows-Exact : (rows width : ℕ) → Exact (rows * width) (advance_rows rows width)
unfolding advance_rows ◌>>=◌ lift
advance_rows-Exact rows width buf pos inside small few =
    rw (checked_len-ok rows width few) (advance_pos-takes (rows * width) buf pos inside small few)

-- The bytes of one value as they stand on the wire, for the types that skip in one piece: a value
-- of `Nothing` is one byte there.
abbrev pub wire_width : ColumnType → Option ℕ
wire_width nothing = some 1
wire_width point = none
wire_width ct = fixed_width ct

abbrev pub Fits : ℕ → Option ℕ → Cursor (Unit {0}) → Type 0
Fits rows none m = Unit {0}
Fits rows (some width) m = Exact (rows * width) m

module _ (s : Skipper) (rows : ℕ) where
  skip_decimal-Fits : (p : ℕ) → Fits rows (decimal_width p) (skip_decimal p rows)
  unfolding skip_decimal
  skip_decimal-Fits p = elim (Bool-cases (in_range 1 9 p)) [
    | inl a ↦ rw (a, Fits, skip_decimal) (advance_rows-Exact rows 4)
    | inr a ↦ elim (Bool-cases (in_range 10 18 p)) [
      | inl b ↦ rw (a, b, Fits, skip_decimal) (advance_rows-Exact rows 8)
      | inr b ↦ elim (Bool-cases (in_range 19 38 p)) [
        | inl c ↦ rw (a, b, c, Fits, skip_decimal) (advance_rows-Exact rows 16)
        | inr c ↦ elim (Bool-cases (in_range 39 76 p)) [
          | inl d ↦ rw (a, b, c, d, Fits, skip_decimal) (advance_rows-Exact rows 32)
          | inr d ↦ rw (a, b, c, d, Fits) tt
        ]
      ]
    ]
  ]

  skip_rows-Fits : (ct : ColumnType) → Fits rows (wire_width ct) (skip_rows s ct rows)
  unfolding skip_rows fixed_width
  skip_rows-Fits uint8 = advance_pos-Exact rows
  skip_rows-Fits int8 = advance_pos-Exact rows
  skip_rows-Fits bool = advance_pos-Exact rows
  skip_rows-Fits enum8 = advance_pos-Exact rows
  skip_rows-Fits nothing = advance_pos-Exact rows
  skip_rows-Fits uint16 = advance_rows-Exact rows 2
  skip_rows-Fits int16 = advance_rows-Exact rows 2
  skip_rows-Fits date = advance_rows-Exact rows 2
  skip_rows-Fits enum16 = advance_rows-Exact rows 2
  skip_rows-Fits uint32 = advance_rows-Exact rows 4
  skip_rows-Fits int32 = advance_rows-Exact rows 4
  skip_rows-Fits float32 = advance_rows-Exact rows 4
  skip_rows-Fits date32 = advance_rows-Exact rows 4
  skip_rows-Fits date_time = advance_rows-Exact rows 4
  skip_rows-Fits time = advance_rows-Exact rows 4
  skip_rows-Fits ipv4 = advance_rows-Exact rows 4
  skip_rows-Fits uint64 = advance_rows-Exact rows 8
  skip_rows-Fits int64 = advance_rows-Exact rows 8
  skip_rows-Fits float64 = advance_rows-Exact rows 8
  skip_rows-Fits (date_time64 scale) = advance_rows-Exact rows 8
  skip_rows-Fits (time64 scale) = advance_rows-Exact rows 8
  skip_rows-Fits uint128 = advance_rows-Exact rows 16
  skip_rows-Fits int128 = advance_rows-Exact rows 16
  skip_rows-Fits uuid = advance_rows-Exact rows 16
  skip_rows-Fits ipv6 = advance_rows-Exact rows 16
  skip_rows-Fits uint256 = advance_rows-Exact rows 32
  skip_rows-Fits int256 = advance_rows-Exact rows 32
  skip_rows-Fits (fixed_string n) = advance_rows-Exact rows n
  skip_rows-Fits (decimal precision scale) = skip_decimal-Fits precision
  skip_rows-Fits string = tt
  skip_rows-Fits json = tt
  skip_rows-Fits (nullable inner) = tt
  skip_rows-Fits (array inner) = tt
  skip_rows-Fits (map key value) = tt
  skip_rows-Fits (tuple elems) = tt
  skip_rows-Fits point = tt
  skip_rows-Fits ring = tt
  skip_rows-Fits polygon = tt
  skip_rows-Fits multi_polygon = tt
  skip_rows-Fits (low_cardinality inner) = tt
  skip_rows-Fits (variant types) = tt
  skip_rows-Fits dynamic = tt
  skip_rows-Fits aggregate_function = tt
  skip_rows-Fits simple_aggregate_function = tt
  skip_rows-Fits (other name) = tt

from_Fits :
    (rows width : ℕ) (o : Option ℕ) (m : Cursor (Unit {0}))
    → o ≡ some width
    → Fits rows o m
    → Exact (rows * width) m
from_Fits rows width o m e fits = subst (λ o. Fits rows o m) e fits

no_rows-Exact : (rows width : ℕ) → rows ≡ 0 → Exact (rows * width) (pure tt)
unfolding pure
no_rows-Exact rows width none_there buf pos inside small few =
    rw none_there ((λ fits. ground arith), λ short. absurd (omega arith))

pub column-Exact :
    (s : Skipper) (ct : ColumnType) (rows width : ℕ)
    → wire_width ct ≡ some width
    → Exact (rows * width) (skip_column_data s ct rows)
unfolding skip_column_data
column-Exact s ct rows width wide = elim (Bool-cases (rows == 0)) [
  | inl e ↦ rw (skip_column_data, e) (no_rows-Exact rows width (==→eq rows 0 e))
  | inr e ↦
      rw (skip_column_data, e)
        (from_Fits rows width (wire_width ct) (skip_rows s ct rows) wide (skip_rows-Fits s rows ct))
]

-- For a type name that parses to a type with one width on the wire (for Nothing, one byte), with
-- at least one unit of fuel, from a position inside a buffer shorter than 2^64 bytes, where rows
-- * width is at most 64 MiB: skipping the column moves the position over exactly those bytes if
-- the buffer holds them, and otherwise fails and leaves the position where it was.
pub skip_column_data_by_name-Exact :
    (fuel : ℕ) (name : List ℕ) (ct : ColumnType) (rows width : ℕ)
    → parse_type name ≡ ok ct
    → wire_width ct ≡ some width
    → Exact (rows * width) (skip_column_data_by_name (suc fuel) name rows)
unfolding skip_column_data_by_name skipper
skip_column_data_by_name-Exact fuel name ct rows width parsed wide =
    rw (parsed, skip_column_data_by_name) (column-Exact (skipper fuel) ct rows width wide)
