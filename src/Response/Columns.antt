-- ===== src/Response/Columns.antt =====
-- The columns of a buffered block in sync/protocol/response.rs, and shared/skip_column.rs on nested
-- JSON.
use st_clickhouse_lib.Common.{
  ℕ, List, [], ◌∷◌, Bool, true, false, not, ◌&&◌, ◌||◌, Option, none, some, String, Result, ok, err,
  map_err, length, ltb, ◌==◌, if◌then◌else◌,
}
use st_clickhouse_lib.Error.{Error, protocol, message, bytes}
use st_clickhouse_lib.Limits.Caps.{checked_add}
use st_clickhouse_lib.ColumnType.{
  ColumnType, ColumnTypes, none_left, one_more, uint8, uint16, uint32, uint64, uint128, uint256,
  int8, int16, int32, int64, int128, int256, float32, float64, bool, string, date, date32,
  date_time, uuid, ipv4, ipv6, json, nullable, array, low_cardinality, map, tuple, variant,
}
use st_clickhouse_lib.TypeParser.Keywords.{find_type}
use st_clickhouse_lib.TypeParser.Parser.{parse_type}
use st_clickhouse_lib.Wire.Cursor.{Outcome, done, fail, stuck, Cursor, pure, lift, ◌>>=◌}
use st_clickhouse_lib.Wire.Parse.{parse_bytes, parse_string, slice}
use st_clickhouse_lib.Skip.State.{Skipper}
use st_clickhouse_lib.Response.LowCardinality.{read_low_cardinality_from_buffer}
use st_clickhouse_lib.Block.{ColumnInfo}

unfoldable mutual
  pub nested_json_below : ColumnType → Bool → Bool
  nested_json_below json is_nested = is_nested
  nested_json_below (nullable inner) is_nested = nested_json_below inner true
  nested_json_below (array inner) is_nested = nested_json_below inner true
  nested_json_below (low_cardinality inner) is_nested = nested_json_below inner true
  nested_json_below (map k v) is_nested = nested_json_below k true || nested_json_below v true
  nested_json_below (tuple elems) is_nested = any_nested_json elems
  nested_json_below (variant types) is_nested = any_nested_json types
  nested_json_below _ is_nested = false

  pub any_nested_json : ColumnTypes → Bool
  any_nested_json none_left = false
  any_nested_json (one_more t ts) = nested_json_below t true || any_nested_json ts

unfoldable pub contains_nested_json : ColumnType → Bool
unfolding nested_json_below
contains_nested_json ct = nested_json_below ct false

abbrev pub is_json : ColumnType → Bool
is_json json = true
is_json _ = false

-- The message of the parser is left out of the message here, and so is the type below.
unfoldable pub bad_type : List ℕ → Result ColumnType Error
unfolding parse_type
bad_type type_name =
    map_err (λ e. protocol (message "bad type '{}'" (bytes type_name ∷ []))) (parse_type type_name)

-- The names that `parse_column_type` knows by itself.
abbrev pub quick_types : List (String × ColumnType)
quick_types =
    ("UInt8", uint8)
    ∷ ("UInt16", uint16)
    ∷ ("UInt32", uint32)
    ∷ ("UInt64", uint64)
    ∷ ("Int8", int8)
    ∷ ("Int16", int16)
    ∷ ("Int32", int32)
    ∷ ("Int64", int64)
    ∷ ("Float32", float32)
    ∷ ("Float64", float64)
    ∷ ("String", string)
    ∷ ("Date", date)
    ∷ ("DateTime", date_time)
    ∷ ("UUID", uuid)
    ∷ ("Bool", bool)
    ∷ ("IPv4", ipv4)
    ∷ ("IPv6", ipv6)
    ∷ ("Date32", date32)
    ∷ ("UInt128", uint128)
    ∷ ("UInt256", uint256)
    ∷ ("Int128", int128)
    ∷ ("Int256", int256)
    ∷ []

unfoldable pub parse_column_type : List ℕ → Result ColumnType Error
unfolding find_type bad_type
parse_column_type type_name = elim (find_type type_name quick_types) [
  | some ct ↦ ok ct
  | none ↦ bad_type type_name
]

-- The version in front of a JSON column is no part of its data.
unfoldable pub materialized_column_data_start : List ℕ → ℕ → ColumnType → ℕ → Result ℕ Error
unfolding contains_nested_json checked_add
materialized_column_data_start buf start ct rows =
    if ltb 0 rows && contains_nested_json ct
    then err (protocol (message "nested JSON columns are not supported in buffered block reads" []))
    else if (rows == 0) || not (is_json ct)
    then ok start
    else elim (checked_add start 8) [
      | none ↦ err (protocol (message "JSON version offset overflow" []))
      | some end ↦
          if ltb (length buf) end
          then err (protocol (message "unexpected end of buffer parsing JSON version" []))
          else ok end
    ]

unfoldable pub data_between : List ℕ → Result ℕ Error → ℕ → Outcome (List ℕ)
data_between buf (ok start) end = done (slice buf start end) end
data_between buf (err e) end = fail e end

abbrev pub lc_inner : ColumnType → Option ColumnType
lc_inner (low_cardinality inner) = some inner
lc_inner _ = none

module _ (s : Skipper) where
  unfoldable pub data_behind : ColumnType → ℕ → ℕ → List ℕ → Outcome (Unit {0}) → Outcome (List ℕ)
  unfolding materialized_column_data_start data_between
  data_behind ct rows col_start buf (done a col_end) =
      data_between buf (materialized_column_data_start buf col_start ct rows) col_end
  data_behind ct rows col_start buf (fail e p) = fail e p
  data_behind ct rows col_start buf stuck = stuck

  unfoldable pub plain_column_data : ColumnType → ℕ → Cursor (List ℕ)
  unfolding data_behind
  plain_column_data ct rows buf col_start =
      data_behind ct rows col_start buf (s.column ct rows buf col_start)

  unfoldable pub parse_column_data : ColumnType → ℕ → Cursor (List ℕ)
  unfolding plain_column_data read_low_cardinality_from_buffer
  parse_column_data ct rows = elim (lc_inner ct) [
    | some inner ↦ read_low_cardinality_from_buffer s inner rows
    | none ↦ plain_column_data ct rows
  ]

  -- One round of the loop over the columns. The custom serialization byte is read and dropped.
  unfoldable pub parse_column : (List ℕ → Result ColumnType Error) → ℕ → Cursor ColumnInfo
  unfolding parse_string parse_bytes parse_column_data
  parse_column typed rows = do
    name ← parse_string
    type_name ← parse_string
    custom ← parse_bytes 1
    ct ← lift (typed type_name)
    data_bytes ← parse_column_data ct rows
    pure (record {
      name = name;
      type_name = type_name;
      data_bytes = data_bytes;
      lc_materialized = [];
    })
