-- ===== src/Skip/Column.antt =====
-- Whole columns, state prefixes and raw bodies in shared/skip_column.rs.
use st_clickhouse_lib.Common.{
  ℕ, zero, suc, List, [], ◌∷◌, not, ◌&&◌, ◌||◌, map_err, take, drop, ltb, ◌==◌, if◌then◌else◌,
}
use st_clickhouse_lib.Common.Bytes.{from_le_bytes}
use st_clickhouse_lib.Error.{protocol, message, num}
use st_clickhouse_lib.Limits.Caps.{max_json_dynamic_items, checked_count}
use st_clickhouse_lib.ColumnType.{ColumnType, ColumnTypes, none_left, one_more}
use st_clickhouse_lib.Wire.Cursor.{Cursor, pure, raise, lift, ◌>>=◌, ◌>>◌, repeat}
use st_clickhouse_lib.Wire.Parse.{parse_varint, parse_bytes, parse_string_bytes}
use st_clickhouse_lib.Skip.State.{
  SkipState, SkipStates, states_end, more_states, DynamicSkipState, dynamic_state, JsonSkipState,
  json_state, DynamicSkipStates, no_paths, more_paths, Skipper,
}
use st_clickhouse_lib.Skip.Primitives.{
  checked_usize, advance_rows, read_u64_le, skip_string_rows, lc_idx_width, read_type_names,
}
use st_clickhouse_lib.Skip.Body.{skip_dynamic_body, parse_dynamic_type}

-- `version != 1 && version != 4`
unfoldable pub skip_materialized_json : ℕ → Cursor (Unit {0})
unfolding read_u64_le skip_string_rows
skip_materialized_json rows = do
  version ← read_u64_le
  if not (version == 1) && not (version == 4)
      then raise (
          protocol (
            message "materialized JSON reads require string serialization version 1 or 4, got {}"
              (num version ∷ [])))
      else skip_string_rows rows "JSON string length"

module _ (s : Skipper) where
  -- `inner_state` is the state of the dictionary's column.
  unfoldable pub skip_lc_column : ColumnType → ℕ → SkipState → Cursor (Unit {0})
  unfolding parse_bytes advance_rows lc_idx_width
  skip_lc_column inner rows inner_state = do
    meta ← parse_bytes 24
    idx_width ←
        lift (lc_idx_width (from_le_bytes (take 8 meta)) (from_le_bytes (take 8 (drop 8 meta))))
    num_keys ← lift (
        map_err protocol (
          checked_count (from_le_bytes (take 8 (drop 16 meta))) "LowCardinality key"
            max_json_dynamic_items))
    if ltb 0 num_keys then s.body inner inner_state num_keys else pure tt
    count ← read_u64_le
    indexes ← lift (checked_usize count "LowCardinality indexes")
    if not (indexes == rows)
        then raise (
            protocol (
              message "LowCardinality index count {} does not match row count {}"
                (num indexes ∷ num rows ∷ [])))
        else advance_rows indexes idx_width

  -- The states of a `Vec` of types.
  unfoldable pub skip_prefixes : ColumnTypes → Cursor SkipStates
  skip_prefixes none_left = pure states_end
  skip_prefixes (one_more typ types) = do
    state ← s.prefix typ
    states ← skip_prefixes types
    pure (more_states state states)

  -- The states of the types of a Dynamic, parsed from their names.
  unfoldable pub skip_named_prefixes : List (List ℕ) → Cursor SkipStates
  skip_named_prefixes [] = pure states_end
  skip_named_prefixes (name ∷ names) = do
    ct ← lift (parse_dynamic_type name)
    state ← s.prefix ct
    states ← skip_named_prefixes names
    pure (more_states state states)

  -- The type names in front of a Dynamic column, by version.
  unfoldable pub dynamic_type_names : ℕ → Cursor (List (List ℕ))
  unfolding read_type_names parse_varint read_u64_le
  dynamic_type_names version =
      if version == 0
      then pure []
      else if version == 1
      then (parse_varint >>= λ max_types.
          read_type_names "dynamic subcolumn types" >>= λ names. read_u64_le >> pure names)
      else if (version == 2) || (version == 3)
      then read_type_names "dynamic subcolumn types"
      else raise (
          protocol
            (message "unknown Dynamic subcolumn serialization version {}" (num version ∷ [])))

  unfoldable pub skip_dynamic_state : Cursor DynamicSkipState
  unfolding dynamic_type_names skip_named_prefixes read_u64_le
  skip_dynamic_state = do
    version ← read_u64_le
    type_names ← dynamic_type_names version
    type_states ← skip_named_prefixes type_names
    pure (dynamic_state version type_names type_states)

  unfoldable pub skip_path_states : ℕ → Cursor DynamicSkipStates
  unfolding skip_dynamic_state
  skip_path_states zero = pure no_paths
  skip_path_states (suc n) = do
    path ← skip_dynamic_state
    paths ← skip_path_states n
    pure (more_paths path paths)

  -- The path names, which are only skipped, and the state of each path.
  unfoldable pub skip_json_paths : Cursor DynamicSkipStates
  unfolding repeat parse_varint parse_string_bytes skip_path_states
  skip_json_paths = do
    value ← parse_varint
    paths_count ← lift (map_err protocol (checked_count value "JSON path" max_json_dynamic_items))
    repeat paths_count (parse_string_bytes >> pure tt)
    skip_path_states paths_count

  unfoldable pub skip_json_state : Cursor JsonSkipState
  unfolding skip_json_paths read_u64_le parse_varint
  skip_json_state = do
    version ← read_u64_le
    dynamic_paths ←
        (if (version == 1) || (version == 4)
          then pure no_paths
          else if version == 3
          then skip_json_paths
          else if version == 0
          then (parse_varint >> skip_json_paths)
          else raise
              (protocol (message "unknown JSON serialization version {}" (num version ∷ []))))
    pure (json_state version dynamic_paths)

  unfoldable pub skip_path_bodies : DynamicSkipStates → ℕ → Cursor (Unit {0})
  unfolding skip_dynamic_body
  skip_path_bodies no_paths rows = pure tt
  skip_path_bodies (more_paths path paths) rows =
      skip_dynamic_body s path rows >> skip_path_bodies paths rows

  unfoldable pub skip_json_body_raw : JsonSkipState → ℕ → Cursor (Unit {0})
  unfolding skip_path_bodies advance_rows skip_string_rows
  skip_json_body_raw (json_state version dynamic_paths) rows =
      if (version == 1) || (version == 4)
      then skip_string_rows rows "JSON string length"
      else if version == 3
      then skip_path_bodies dynamic_paths rows
      else if version == 0
      then (skip_path_bodies dynamic_paths rows >> advance_rows rows 8)
      else raise (protocol (message "unknown JSON serialization version {}" (num version ∷ [])))
