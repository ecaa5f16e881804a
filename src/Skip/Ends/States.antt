-- ===== src/Skip/Ends/States.antt =====
-- The state prefixes of shared/skip_column.rs return, and have no more layers than bytes to read.
use st_clickhouse_lib.Common.{
  ℕ, zero, suc, ◌+◌, ◌-◌, ◌*◌, ◌≤◌, ◌<◌, List, [], ◌∷◌, ◌==◌, ◌||◌, arith,
}
use st_clickhouse_lib.ColumnType.{ColumnTypes, none_left, one_more}
use st_clickhouse_lib.ColumnType.Depth.{depth, depth_all}
use st_clickhouse_lib.Wire.Ends.{
  Ends, Any, Ends-pure, Ends-raise, Ends-Any, Ends-lift, Ends-if, Ends-bind, Ends-then,
  Ends-bind_taken, Ends-repeat,
}
use st_clickhouse_lib.Skip.State.{
  states_end, more_states, dynamic_state, DynamicSkipStates, no_paths, more_paths, JsonSkipState,
  json_state, Skipper,
}
use st_clickhouse_lib.Skip.Layers.{layers, layers_all, layers_dynamic, layers_json, layers_paths}
use st_clickhouse_lib.Skip.Column.{
  skip_prefixes, skip_named_prefixes, dynamic_type_names, skip_dynamic_state, skip_path_states,
  skip_json_paths, skip_json_state, skip_path_bodies, skip_json_body_raw,
}
use st_clickhouse_lib.Skip.Ends.Parts.{
  part_ends, Takes-read_u64_le, Ends-read_u64_le, Ends-parse_varint, Ends-parse_string_bytes,
}
use st_clickhouse_lib.Skip.Ends.Columns.{EndsAll, Ends-parsed, Ends-dynamic_body}

module _ (s : Skipper) (fuel : ℕ) (r : EndsAll s fuel) where
  open r use {column, prefix, body}

  pub Ends-prefixes :
      (room : ℕ) (types : ColumnTypes)
      → depth_all types + 265 * room < fuel
      → Ends room (λ states. layers_all states ≤ room) (skip_prefixes s types)
  unfolding skip_prefixes depth_all layers_all
  Ends-prefixes room none_left h = Ends-pure _ room states_end (omega arith)
  Ends-prefixes room (one_more typ types) h =
      Ends-bind (λ state. layers state ≤ room) _ room _ _ (prefix typ room (omega arith))
        λ state a.
          Ends-bind (λ states. layers_all states ≤ room) _ room _ _
            (Ends-prefixes room types (omega arith))
            λ states b. Ends-pure _ room (more_states state states) (omega arith)

  Ends-named_prefixes :
      (room : ℕ) (names : List (List ℕ))
      → 263 + 265 * room < fuel
      → Ends room (λ states. layers_all states ≤ room) (skip_named_prefixes s names)
  unfolding skip_named_prefixes layers_all
  Ends-named_prefixes room [] h = Ends-pure _ room states_end (omega arith)
  Ends-named_prefixes room (name ∷ names) h =
      Ends-bind (λ ct. depth ct ≤ 263) _ room _ _ (Ends-parsed room name)
        λ ct d.
          Ends-bind (λ state. layers state ≤ room) _ room _ _ (prefix ct room (omega arith))
            λ state a.
              Ends-bind (λ states. layers_all states ≤ room) _ room _ _
                (Ends-named_prefixes room names h)
                λ states b. Ends-pure _ room (more_states state states) (omega arith)

  Ends-type_names : (room version : ℕ) → Ends room Any (dynamic_type_names s version)
  unfolding dynamic_type_names
  Ends-type_names room version = search part_ends depth 12

  -- A state takes its version's eight bytes, and its layers come from what is behind them.
  pub Ends-dynamic_state :
      (room : ℕ)
      → 265 * room ≤ fuel
      → Ends room (λ d. suc (layers_dynamic d) ≤ room) (skip_dynamic_state s)
  unfolding skip_dynamic_state layers_dynamic
  Ends-dynamic_state room h =
      Ends-bind_taken Any _ 8 room _ _ Takes-read_u64_le (Ends-read_u64_le room)
        λ some_room version u.
          Ends-then _ (room - 8) _ _ (Ends-type_names (room - 8) version) λ names.
            Ends-bind (λ states. layers_all states ≤ room - 8) _ (room - 8) _ _
              (Ends-named_prefixes (room - 8) names (omega arith))
              λ states b. Ends-pure _ (room - 8) (dynamic_state version names states) (omega arith)

  Ends-path_states :
      (room n : ℕ)
      → 265 * room ≤ fuel
      → Ends room (λ ds. layers_paths ds ≤ room) (skip_path_states s n)
  unfolding skip_path_states layers_paths
  Ends-path_states room zero h = Ends-pure _ room no_paths (omega arith)
  Ends-path_states room (suc n) h =
      Ends-bind (λ d. suc (layers_dynamic d) ≤ room) _ room _ _ (Ends-dynamic_state room h)
        λ d a.
          Ends-bind (λ ds. layers_paths ds ≤ room) _ room _ _ (Ends-path_states room n h)
            λ ds b. Ends-pure _ room (more_paths d ds) (omega arith)

  Ends-json_paths :
      (room : ℕ) → 265 * room ≤ fuel → Ends room (λ ds. layers_paths ds ≤ room) (skip_json_paths s)
  unfolding skip_json_paths
  Ends-json_paths room h = Ends-then _ room _ _ (Ends-parse_varint room) λ value.
      Ends-then _ room _ _ (Ends-lift room _) λ count.
        Ends-then _ room _ _
          (Ends-repeat room count _
            (Ends-then _ room _ _ (Ends-parse_string_bytes room) (λ name. Ends-Any room tt)))
          (λ _. Ends-path_states room count h)

  pub Ends-json_state :
      (room : ℕ)
      → 265 * room ≤ fuel
      → Ends room (λ j. suc (layers_json j) ≤ room) (skip_json_state s)
  unfolding skip_json_state layers_json layers_paths
  Ends-json_state room h =
      Ends-bind_taken Any _ 8 room _ _ Takes-read_u64_le (Ends-read_u64_le room)
        λ some_room version u.
          let paths = Ends-json_paths (room - 8) (omega arith) in
          let few = λ (ds : DynamicSkipStates). layers_paths ds ≤ room - 8 in
          let no_path = Ends-pure few (room - 8) no_paths (omega arith) in
          Ends-bind (λ ds. layers_paths ds ≤ room - 8) _ (room - 8) _ _
            (Ends-if few (room - 8) ((version == 1) || (version == 4)) _ _ no_path (
              Ends-if few (room - 8) (version == 3) _ _ paths (
                Ends-if few (room - 8) (version == 0) _ _
                  (Ends-then few (room - 8) _ _ (Ends-parse_varint (room - 8)) (λ _. paths))
                  (Ends-raise few (room - 8) _))))
            λ ds b. Ends-pure _ (room - 8) (json_state version ds) (omega arith)

  Ends-path_bodies :
      (room : ℕ) (ds : DynamicSkipStates) (rows : ℕ)
      → 263 + 265 * layers_paths ds + 1 < fuel
      → Ends room Any (skip_path_bodies s ds rows)
  unfolding skip_path_bodies layers_paths
  Ends-path_bodies room no_paths rows h = Ends-Any room tt
  Ends-path_bodies room (more_paths d ds) rows h =
      Ends-then Any room _ _ (Ends-dynamic_body s fuel r room d rows (omega arith))
        (λ _. Ends-path_bodies room ds rows (omega arith))

  pub Ends-json_body :
      (room : ℕ) (state : JsonSkipState) (rows : ℕ)
      → 263 + 265 * layers_json state + 1 < fuel
      → Ends room Any (skip_json_body_raw s state rows)
  unfolding skip_json_body_raw layers_json
  Ends-json_body room (json_state version ds) rows h =
      search (part_ends, Ends-path_bodies room ds rows h) depth 10
