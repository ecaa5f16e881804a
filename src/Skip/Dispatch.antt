-- ===== src/Skip/Dispatch.antt =====
-- The dispatch on the column type in shared/skip_column.rs, and the knot of its recursion.
use st_clickhouse_lib.Common.{
  ℕ, zero, suc, List, [], ◌∷◌, ok, err, ltb, ◌==◌, String, if◌then◌else◌,
}
use st_clickhouse_lib.Error.{protocol, message, num, txt}
use st_clickhouse_lib.ColumnType.{
  ColumnType, ColumnTypes, none_left, one_more, uint8, uint16, uint32, uint64, uint128, uint256,
  int8, int16, int32, int64, int128, int256, float32, float64, bool, string, fixed_string, date,
  date32, date_time, date_time64, decimal, uuid, ipv4, ipv6, enum8, enum16, nullable, array, map,
  tuple, low_cardinality, aggregate_function, simple_aggregate_function, nothing, time, time64,
  json, variant, dynamic, point, ring, polygon, multi_polygon, other,
}
use st_clickhouse_lib.ColumnType.Width.{in_range}
use st_clickhouse_lib.TypeParser.Parser.{parse_type}
use st_clickhouse_lib.Wire.Cursor.{Cursor, pure, raise, out_of_fuel, ◌>>=◌, ◌>>◌}
use st_clickhouse_lib.Skip.State.{
  SkipState, no_state, nullable_state, array_state, map_state, tuple_state, low_cardinality_state,
  variant_state, dynamic_skip, json_skip, SkipStates, states_end, state_at, Skipper,
}
use st_clickhouse_lib.Skip.Primitives.{advance_pos, advance_rows, skip_string_rows, skip_offsets}
use st_clickhouse_lib.Skip.Body.{skip_dynamic_body, skip_variant_body}
use st_clickhouse_lib.Skip.Column.{
  skip_materialized_json, skip_lc_column, skip_prefixes, skip_dynamic_state, skip_json_state,
  skip_json_body_raw,
}

unfoldable pub unsupported_aggregate : String → Cursor (Unit {0})
unsupported_aggregate ct =
    raise (protocol (message "{} columns are not supported in buffered block reads" (txt ct ∷ [])))

-- The arms on the precision of a `Decimal`.
unfoldable pub skip_decimal : ℕ → ℕ → Cursor (Unit {0})
unfolding advance_rows
skip_decimal precision rows =
    if in_range 1 9 precision
    then advance_rows rows 4
    else if in_range 10 18 precision
    then advance_rows rows 8
    else if in_range 19 38 precision
    then advance_rows rows 16
    else if in_range 39 76 precision
    then advance_rows rows 32
    else raise (protocol (message "unsupported Decimal precision {}" (num precision ∷ [])))

module _ (s : Skipper) where
  unfoldable pub skip_columns : ColumnTypes → ℕ → Cursor (Unit {0})
  skip_columns none_left rows = pure tt
  skip_columns (one_more elem elems) rows = s.column elem rows >> skip_columns elems rows

  -- `if total > 0 { ... }`
  unfoldable pub some_rows : ℕ → (ℕ → Cursor (Unit {0})) → Cursor (Unit {0})
  some_rows total inner = if ltb 0 total then inner total else pure tt

  -- `skip_column_data` behind its early return on no rows.
  unfoldable pub skip_rows : ColumnType → ℕ → Cursor (Unit {0})
  unfolding skip_decimal advance_pos advance_rows skip_string_rows skip_offsets skip_columns
      some_rows unsupported_aggregate skip_materialized_json skip_lc_column skip_prefixes
      skip_variant_body skip_dynamic_state skip_dynamic_body
  skip_rows uint8 rows = advance_pos rows
  skip_rows int8 rows = advance_pos rows
  skip_rows bool rows = advance_pos rows
  skip_rows enum8 rows = advance_pos rows
  skip_rows uint16 rows = advance_rows rows 2
  skip_rows int16 rows = advance_rows rows 2
  skip_rows date rows = advance_rows rows 2
  skip_rows enum16 rows = advance_rows rows 2
  skip_rows uint32 rows = advance_rows rows 4
  skip_rows int32 rows = advance_rows rows 4
  skip_rows float32 rows = advance_rows rows 4
  skip_rows date32 rows = advance_rows rows 4
  skip_rows date_time rows = advance_rows rows 4
  skip_rows time rows = advance_rows rows 4
  skip_rows ipv4 rows = advance_rows rows 4
  skip_rows uint64 rows = advance_rows rows 8
  skip_rows int64 rows = advance_rows rows 8
  skip_rows float64 rows = advance_rows rows 8
  skip_rows (date_time64 scale) rows = advance_rows rows 8
  skip_rows (time64 scale) rows = advance_rows rows 8
  skip_rows uint128 rows = advance_rows rows 16
  skip_rows int128 rows = advance_rows rows 16
  skip_rows uuid rows = advance_rows rows 16
  skip_rows ipv6 rows = advance_rows rows 16
  skip_rows uint256 rows = advance_rows rows 32
  skip_rows int256 rows = advance_rows rows 32
  skip_rows (fixed_string n) rows = advance_rows rows n
  skip_rows (decimal precision scale) rows = skip_decimal precision rows
  skip_rows nothing rows = advance_pos rows
  skip_rows string rows = skip_string_rows rows "string value length"
  skip_rows json rows = skip_materialized_json rows
  skip_rows (nullable inner) rows = advance_pos rows >> s.column inner rows
  skip_rows (array inner) rows =
      skip_offsets rows "array offset" >>= λ total. some_rows total (s.column inner)
  skip_rows (map key value) rows = skip_offsets rows "map offset" >>= λ total.
      some_rows total (λ n. s.column key n >> s.column value n)
  skip_rows (tuple elems) rows = skip_columns elems rows
  skip_rows point rows = s.column float64 rows >> s.column float64 rows
  skip_rows ring rows = s.column (array point) rows
  skip_rows polygon rows = s.column (array ring) rows
  skip_rows multi_polygon rows = s.column (array polygon) rows
  skip_rows (low_cardinality inner) rows = skip_lc_column s inner rows no_state
  skip_rows (variant types) rows =
      skip_prefixes s types >>= λ states. skip_variant_body s types states rows
  skip_rows dynamic rows = skip_dynamic_state s >>= λ state. skip_dynamic_body s state rows
  skip_rows aggregate_function rows = unsupported_aggregate "AggregateFunction"
  skip_rows simple_aggregate_function rows = unsupported_aggregate "SimpleAggregateFunction"
  skip_rows (other name) rows = skip_string_rows rows "string value length"

  unfoldable pub skip_column_data : ColumnType → ℕ → Cursor (Unit {0})
  unfolding skip_rows
  skip_column_data ct rows = if rows == 0 then pure tt else skip_rows ct rows

  unfoldable pub skip_state_prefix : ColumnType → Cursor SkipState
  unfolding skip_prefixes skip_dynamic_state skip_json_state
  skip_state_prefix (nullable inner) = s.prefix inner >>= λ state. pure (nullable_state state)
  skip_state_prefix (array inner) = s.prefix inner >>= λ state. pure (array_state state)
  skip_state_prefix (map key value) = s.prefix key >>= λ key_state.
      s.prefix value >>= λ value_state. pure (map_state key_state value_state)
  skip_state_prefix (tuple elems) = skip_prefixes s elems >>= λ states. pure (tuple_state states)
  skip_state_prefix (low_cardinality inner) =
      s.prefix inner >>= λ state. pure (low_cardinality_state state)
  skip_state_prefix (variant types) =
      skip_prefixes s types >>= λ states. pure (variant_state states)
  skip_state_prefix dynamic = skip_dynamic_state s >>= λ state. pure (dynamic_skip state)
  skip_state_prefix json = skip_json_state s >>= λ state. pure (json_skip state)
  skip_state_prefix _ = pure no_state

-- The state of a part, or none where the states do not fit the type.
abbrev pub nullable_part : SkipState → SkipState
nullable_part (nullable_state inner) = inner
nullable_part _ = no_state

abbrev pub array_part : SkipState → SkipState
array_part (array_state inner) = inner
array_part _ = no_state

abbrev pub lc_part : SkipState → SkipState
lc_part (low_cardinality_state inner) = inner
lc_part _ = no_state

abbrev pub map_parts : SkipState → SkipState × SkipState
map_parts (map_state key value) = (key, value)
map_parts _ = (no_state, no_state)

abbrev pub tuple_parts : SkipState → SkipStates
tuple_parts (tuple_state parts) = parts
tuple_parts _ = states_end

abbrev pub variant_parts : SkipState → SkipStates
variant_parts (variant_state parts) = parts
variant_parts _ = states_end

module _ (s : Skipper) where
  unfoldable pub skip_bodies : ColumnTypes → SkipStates → ℕ → ℕ → Cursor (Unit {0})
  skip_bodies none_left _ idx rows = pure tt
  skip_bodies (one_more elem elems) parts idx rows =
      s.body elem (state_at parts idx) rows >> skip_bodies elems parts (suc idx) rows

  unfoldable pub skip_json_part : SkipState → ℕ → Cursor (Unit {0})
  unfolding skip_json_body_raw
  skip_json_part (json_skip state) rows = skip_json_body_raw s state rows
  skip_json_part _ rows = raise (protocol (message "missing JSON state prefix" []))

  unfoldable pub skip_dynamic_part : SkipState → ℕ → Cursor (Unit {0})
  unfolding skip_dynamic_body
  skip_dynamic_part (dynamic_skip state) rows = skip_dynamic_body s state rows
  skip_dynamic_part _ rows = raise (protocol (message "missing Dynamic state prefix" []))

  -- `skip_body_raw` behind its early return on no rows.
  unfoldable pub skip_raw_rows : ColumnType → SkipState → ℕ → Cursor (Unit {0})
  unfolding advance_pos skip_offsets some_rows skip_bodies skip_lc_column skip_json_part
      skip_dynamic_part skip_variant_body
  skip_raw_rows (nullable inner) state rows =
      advance_pos rows >> s.body inner (nullable_part state) rows
  skip_raw_rows (array inner) state rows = skip_offsets rows "array offset" >>= λ total.
      some_rows s total (s.body inner (array_part state))
  skip_raw_rows (map key value) state rows = skip_offsets rows "map offset" >>= λ total.
      some_rows s total
        (λ n. s.body key (map_parts state).0 n >> s.body value (map_parts state).1 n)
  skip_raw_rows (tuple elems) state rows = skip_bodies elems (tuple_parts state) 0 rows
  skip_raw_rows (low_cardinality inner) state rows = skip_lc_column s inner rows (lc_part state)
  skip_raw_rows json state rows = skip_json_part state rows
  skip_raw_rows dynamic state rows = skip_dynamic_part state rows
  skip_raw_rows (variant types) state rows = skip_variant_body s types (variant_parts state) rows
  skip_raw_rows point state rows = s.body float64 no_state rows >> s.body float64 no_state rows
  skip_raw_rows ring state rows = s.body (array point) no_state rows
  skip_raw_rows polygon state rows = s.body (array ring) no_state rows
  skip_raw_rows multi_polygon state rows = s.body (array polygon) no_state rows
  skip_raw_rows ct state rows = s.column ct rows

  unfoldable pub skip_body_raw : ColumnType → SkipState → ℕ → Cursor (Unit {0})
  unfolding skip_raw_rows
  skip_body_raw ct state rows = if rows == 0 then pure tt else skip_raw_rows ct state rows

-- Calls nested `fuel` deep.
unfoldable pub skipper : ℕ → Skipper
unfolding skip_column_data skip_state_prefix skip_body_raw out_of_fuel
skipper zero = record {
  column = λ ct rows. out_of_fuel;
  prefix = λ ct. out_of_fuel;
  body = λ ct state rows. out_of_fuel;
}
skipper (suc fuel) = record {
  column = skip_column_data (skipper fuel);
  prefix = skip_state_prefix (skipper fuel);
  body = skip_body_raw (skipper fuel);
}

unfoldable pub skip_column_data_by_name : ℕ → List ℕ → ℕ → Cursor (Unit {0})
unfolding skipper skip_string_rows parse_type
skip_column_data_by_name fuel type_name rows = elim (parse_type type_name) [
  | ok ct ↦ (skipper fuel).column ct rows
  | err e ↦ skip_string_rows rows "string value length"
]
