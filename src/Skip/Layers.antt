-- ===== src/Skip/Layers.antt =====
-- How many Dynamic and JSON columns stand inside one another in a state that was read.
use st_clickhouse_lib.Common.{ℕ, zero, suc, ◌≤◌, max, arith}
use st_clickhouse_lib.Skip.State.{
  SkipState, no_state, nullable_state, array_state, map_state, tuple_state, low_cardinality_state,
  variant_state, dynamic_skip, json_skip, SkipStates, states_end, more_states, DynamicSkipState,
  dynamic_state, JsonSkipState, json_state, DynamicSkipStates, no_paths, more_paths, state_at,
}
use st_clickhouse_lib.Skip.Dispatch.{
  nullable_part, array_part, lc_part, map_parts, tuple_parts, variant_parts,
}

unfoldable mutual
  pub layers : SkipState → ℕ
  layers no_state = 0
  layers (nullable_state s) = layers s
  layers (array_state s) = layers s
  layers (map_state k v) = max (layers k) (layers v)
  layers (tuple_state ss) = layers_all ss
  layers (low_cardinality_state s) = layers s
  layers (variant_state ss) = layers_all ss
  layers (dynamic_skip d) = suc (layers_dynamic d)
  layers (json_skip j) = suc (layers_json j)

  pub layers_all : SkipStates → ℕ
  layers_all states_end = 0
  layers_all (more_states s ss) = max (layers s) (layers_all ss)

  pub layers_dynamic : DynamicSkipState → ℕ
  layers_dynamic (dynamic_state version names ss) = layers_all ss

  pub layers_json : JsonSkipState → ℕ
  layers_json (json_state version paths) = layers_paths paths

  pub layers_paths : DynamicSkipStates → ℕ
  layers_paths no_paths = 0
  layers_paths (more_paths d ds) = max (layers_dynamic d) (layers_paths ds)

pub state_at-layers : (ss : SkipStates) (i : ℕ) → layers (state_at ss i) ≤ layers_all ss
unfolding layers layers_all
state_at-layers states_end i = omega arith
state_at-layers (more_states s ss) zero = omega arith
state_at-layers (more_states s ss) (suc i) = omega (arith, state_at-layers ss i)

-- The state of a part has at most the layers of the whole.
pub nullable_part-layers : (s : SkipState) → layers (nullable_part s) ≤ layers s
unfolding layers
nullable_part-layers (nullable_state inner) = omega arith
nullable_part-layers no_state = omega arith
nullable_part-layers _ = omega arith

pub array_part-layers : (s : SkipState) → layers (array_part s) ≤ layers s
unfolding layers
array_part-layers (array_state inner) = omega arith
array_part-layers no_state = omega arith
array_part-layers _ = omega arith

pub lc_part-layers : (s : SkipState) → layers (lc_part s) ≤ layers s
unfolding layers
lc_part-layers (low_cardinality_state inner) = omega arith
lc_part-layers no_state = omega arith
lc_part-layers _ = omega arith

pub map_parts-layers :
    (s : SkipState) → (layers (map_parts s).0 ≤ layers s) × (layers (map_parts s).1 ≤ layers s)
unfolding layers
map_parts-layers (map_state key value) = omega arith
map_parts-layers no_state = omega arith
map_parts-layers _ = omega arith

pub tuple_parts-layers : (s : SkipState) → layers_all (tuple_parts s) ≤ layers s
unfolding layers layers_all
tuple_parts-layers (tuple_state parts) = omega arith
tuple_parts-layers no_state = omega arith
tuple_parts-layers _ = omega arith

pub variant_parts-layers : (s : SkipState) → layers_all (variant_parts s) ≤ layers s
unfolding layers layers_all
variant_parts-layers (variant_state parts) = omega arith
variant_parts-layers no_state = omega arith
variant_parts-layers _ = omega arith
