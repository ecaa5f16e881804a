-- ===== src/Skip/State.antt =====
-- The state that is read in front of a Variant or Dynamic body, and the functions that recur.
use st_clickhouse_lib.Common.{ℕ, zero, suc, List}
use st_clickhouse_lib.ColumnType.{ColumnType}
use st_clickhouse_lib.Wire.Cursor.{Cursor}

mutual
  pub data SkipState : Type 0 where
    no_state : SkipState
    nullable_state : SkipState → SkipState
    array_state : SkipState → SkipState
    map_state : SkipState → SkipState → SkipState
    tuple_state : SkipStates → SkipState
    low_cardinality_state : SkipState → SkipState
    variant_state : SkipStates → SkipState
    dynamic_skip : DynamicSkipState → SkipState
    json_skip : JsonSkipState → SkipState

  pub data SkipStates : Type 0 where
    states_end : SkipStates
    more_states : SkipState → SkipStates → SkipStates

  -- The version, the names of the subcolumns' types, and their states.
  pub data DynamicSkipState : Type 0 where
    dynamic_state : ℕ → List (List ℕ) → SkipStates → DynamicSkipState

  -- The version, and the state of each dynamic path.
  pub data JsonSkipState : Type 0 where
    json_state : ℕ → DynamicSkipStates → JsonSkipState

  pub data DynamicSkipStates : Type 0 where
    no_paths : DynamicSkipStates
    more_paths : DynamicSkipState → DynamicSkipStates → DynamicSkipStates

-- `states.get(idx).unwrap_or(&SkipState::None)`
abbrev pub state_at : SkipStates → ℕ → SkipState
state_at states_end i = no_state
state_at (more_states s ss) zero = s
state_at (more_states s ss) (suc i) = state_at ss i

-- `skip_column_data`, `skip_state_prefix` and `skip_body_raw`, as the others call them.
pub record Skipper : Type 0 where
  pub column : ColumnType → ℕ → Cursor (Unit {0})
  pub prefix : ColumnType → Cursor SkipState
  pub body : ColumnType → SkipState → ℕ → Cursor (Unit {0})
