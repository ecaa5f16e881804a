-- ===== src/ColumnType.antt =====
-- The column types of shared/type_parser.rs. `UInt8` is spelled `uint8`, and so on; a `Vec` of types
-- is a list of its own, because the two are declared together.
pub mod Width
pub mod Depth
use st_clickhouse_lib.Common.{ℕ, zero, suc, List, Option, none, some}

mutual
  pub data ColumnType : Type 0 where
    uint8 uint16 uint32 uint64 uint128 uint256 : ColumnType
    int8 int16 int32 int64 int128 int256 : ColumnType
    float32 float64 bool string : ColumnType
    fixed_string : ℕ → ColumnType
    date date32 date_time : ColumnType
    date_time64 : ℕ → ColumnType
    decimal : ℕ → ℕ → ColumnType
    uuid ipv4 ipv6 enum8 enum16 : ColumnType
    nullable : ColumnType → ColumnType
    array : ColumnType → ColumnType
    map : ColumnType → ColumnType → ColumnType
    tuple : ColumnTypes → ColumnType
    low_cardinality : ColumnType → ColumnType
    aggregate_function simple_aggregate_function nothing time : ColumnType
    time64 : ℕ → ColumnType
    json : ColumnType
    variant : ColumnTypes → ColumnType
    dynamic point ring polygon multi_polygon : ColumnType
    other : List ℕ → ColumnType

  pub data ColumnTypes : Type 0 where
    none_left : ColumnTypes
    one_more : ColumnType → ColumnTypes → ColumnTypes

-- `Vec::len`, and indexing.
abbrev pub count_types : ColumnTypes → ℕ
count_types none_left = 0
count_types (one_more t ts) = suc (count_types ts)

abbrev pub nth_type : ColumnTypes → ℕ → Option ColumnType
nth_type none_left i = none
nth_type (one_more t ts) zero = some t
nth_type (one_more t ts) (suc i) = nth_type ts i
