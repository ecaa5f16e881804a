-- ===== src/ColumnType/Width.antt =====
-- `ColumnType::fixed_width` of shared/type_parser.rs.
use st_clickhouse_lib.Common.{ℕ, Bool, Option, none, some, leb, ◌&&◌, if◌then◌else◌}
use st_clickhouse_lib.ColumnType.{
  ColumnType, uint8, uint16, uint32, uint64, uint128, uint256, int8, int16, int32, int64, int128,
  int256, float32, float64, bool, enum8, enum16, fixed_string, date, date32, date_time, date_time64,
  decimal, uuid, ipv4, ipv6, nothing, time, time64, point,
}

-- `1..=9` and the like, as patterns on the precision of a `Decimal`.
abbrev pub in_range : ℕ → ℕ → ℕ → Bool
in_range lo hi p = leb lo p && leb p hi

abbrev pub decimal_width : ℕ → Option ℕ
decimal_width p =
    if in_range 1 9 p
    then some 4
    else if in_range 10 18 p
    then some 8
    else if in_range 19 38 p
    then some 16
    else if in_range 39 76 p
    then some 32
    else none

unfoldable pub fixed_width : ColumnType → Option ℕ
fixed_width uint8 = some 1
fixed_width int8 = some 1
fixed_width bool = some 1
fixed_width enum8 = some 1
fixed_width uint16 = some 2
fixed_width int16 = some 2
fixed_width date = some 2
fixed_width enum16 = some 2
fixed_width uint32 = some 4
fixed_width int32 = some 4
fixed_width float32 = some 4
fixed_width date32 = some 4
fixed_width date_time = some 4
fixed_width time = some 4
fixed_width ipv4 = some 4
fixed_width uint64 = some 8
fixed_width int64 = some 8
fixed_width float64 = some 8
fixed_width (date_time64 s) = some 8
fixed_width (time64 s) = some 8
fixed_width ipv6 = some 16
fixed_width uint128 = some 16
fixed_width int128 = some 16
fixed_width uuid = some 16
fixed_width uint256 = some 32
fixed_width int256 = some 32
fixed_width (fixed_string n) = some n
fixed_width (decimal p s) = decimal_width p
fixed_width nothing = some 0
fixed_width point = some 16
fixed_width _ = none
