-- ===== src/Skip/Ends/Dispatch.antt =====
-- The dispatch of shared/skip_column.rs, and fuel that is enough for every column and buffer.
use st_clickhouse_lib.Common.{
  Result, ℕ, zero, suc, ◌+◌, ◌*◌, ◌≤◌, ◌<◌, ◌≡◌, List, length, arith, ok, err, refl, ◌==◌,
}
use st_clickhouse_lib.Error.{Message}
use st_clickhouse_lib.ColumnType.{ColumnType, ColumnTypes, none_left, one_more}
use st_clickhouse_lib.ColumnType.Depth.{depth, depth_all}
use st_clickhouse_lib.TypeParser.Parser.{parse_type}
use st_clickhouse_lib.TypeParser.Nesting.{Shallow, parse_type-Shallow}
use st_clickhouse_lib.Wire.Ends.{
  Ends, Returned, Any, Ends-pure, Ends-raise, Ends-Any, Ends-if, Ends-bind, Ends-then,
}
use st_clickhouse_lib.Skip.State
use st_clickhouse_lib.Skip.State.{SkipState, SkipStates, state_at, Skipper}
use st_clickhouse_lib.Skip.Layers.{
  layers, layers_all, layers_dynamic, layers_json, state_at-layers, nullable_part-layers,
  array_part-layers, lc_part-layers, map_parts-layers, tuple_parts-layers, variant_parts-layers,
}
use st_clickhouse_lib.Skip.Dispatch.{
  skip_rows, skip_column_data, skip_state_prefix, skip_bodies, skip_json_part, skip_dynamic_part,
  skip_raw_rows, skip_body_raw, skipper, skip_decimal, unsupported_aggregate,
  skip_column_data_by_name, nullable_part, array_part, lc_part, map_parts, tuple_parts,
  variant_parts,
}
use st_clickhouse_lib.Skip.Primitives.{skip_string_rows}
use st_clickhouse_lib.Skip.Ends.Parts.{part_ends, Ends-skip_string_rows}
use st_clickhouse_lib.Skip.Ends.Columns.{
  EndsAll, Ends-dynamic_body, Ends-variant_body, Ends-lc_column, Ends-columns, Ends-some_rows,
}
use st_clickhouse_lib.Skip.Ends.States.{
  Ends-prefixes, Ends-dynamic_state, Ends-json_state, Ends-json_body,
}

Ends-decimal : (room p rows : ℕ) → Ends room Any (skip_decimal p rows)
unfolding skip_decimal
Ends-decimal room p rows = search part_ends depth 12

-- The types whose columns recur into no others.
unfoldable IsLeaf : ColumnType → Type 0
IsLeaf (ColumnType.nullable _) = ⊥
IsLeaf (ColumnType.array _) = ⊥
IsLeaf (ColumnType.map _ _) = ⊥
IsLeaf (ColumnType.tuple _) = ⊥
IsLeaf (ColumnType.low_cardinality _) = ⊥
IsLeaf (ColumnType.variant _) = ⊥
IsLeaf ColumnType.dynamic = ⊥
IsLeaf ColumnType.point = ⊥
IsLeaf ColumnType.ring = ⊥
IsLeaf ColumnType.polygon = ⊥
IsLeaf ColumnType.multi_polygon = ⊥
IsLeaf _ = Unit {0}

leaf_rows-Ends :
    (s : Skipper) (ct : ColumnType) (rows room : ℕ)
    → IsLeaf ct
    → Ends room Any (skip_rows s ct rows)
unfolding skip_rows IsLeaf unsupported_aggregate
leaf_rows-Ends s ColumnType.uint8 rows room h = search (part_ends, Ends-decimal)
leaf_rows-Ends s _ rows room h = search (part_ends, Ends-decimal)

-- Columns of these types want one unit of fuel, whatever is left to read.
LeafEnds : Skipper → ℕ → Type 0
LeafEnds s fuel =
    (ct : ColumnType) (rows room : ℕ) → 0 < fuel → IsLeaf ct → Ends room Any (s.column ct rows)

none_layers : layers State.no_state ≡ 0
unfolding layers
none_layers = refl

module _ (s : Skipper) (fuel : ℕ) (r : EndsAll s fuel) (leaf : LeafEnds s fuel) where
  open r use {column, prefix, body}

  Ends-skip_rows :
      (ct : ColumnType) (rows room : ℕ)
      → depth ct + 265 * room + 2 < suc fuel
      → Ends room Any (skip_rows s ct rows)
  unfolding skip_rows depth IsLeaf
  Ends-skip_rows (ColumnType.nullable inner) rows room h =
      let here = column inner rows room (omega arith) in search (part_ends, here)
  Ends-skip_rows (ColumnType.array inner) rows room h =
      search (part_ends, Ends-some_rows s fuel r, λ (n : ℕ). column inner n room (omega arith))
  Ends-skip_rows (ColumnType.map key value) rows room h = search (
    part_ends,
    Ends-some_rows s fuel r,
    λ (n : ℕ). column key n room (omega arith),
    λ (n : ℕ). column value n room (omega arith),
  )
  Ends-skip_rows (ColumnType.tuple elems) rows room h =
      Ends-columns s fuel r room elems rows (omega arith)
  Ends-skip_rows (ColumnType.low_cardinality inner) rows room h =
      Ends-lc_column s fuel r room inner rows State.no_state (omega (arith, none_layers))
  Ends-skip_rows (ColumnType.variant types) rows room h =
      Ends-bind (λ states. layers_all states ≤ room) Any room _ _
        (Ends-prefixes s fuel r room types (omega arith))
        λ states few. Ends-variant_body s fuel r room types states rows (omega arith)
  Ends-skip_rows ColumnType.dynamic rows room h =
      Ends-bind (λ d. suc (layers_dynamic d) ≤ room) Any room _ _
        (Ends-dynamic_state s fuel r room (omega arith))
        λ d few. Ends-dynamic_body s fuel r room d rows (omega arith)
  Ends-skip_rows ColumnType.point rows room h =
      let here = column ColumnType.float64 rows room (omega arith) in search (part_ends, here)
  Ends-skip_rows ColumnType.ring rows room h =
      column (ColumnType.array ColumnType.point) rows room (omega arith)
  Ends-skip_rows ColumnType.polygon rows room h =
      column (ColumnType.array ColumnType.ring) rows room (omega arith)
  Ends-skip_rows ColumnType.multi_polygon rows room h =
      column (ColumnType.array ColumnType.polygon) rows room (omega arith)
  Ends-skip_rows ColumnType.uint8 rows room h = leaf_rows-Ends s ColumnType.uint8 rows room tt
  Ends-skip_rows ct rows room h = leaf_rows-Ends s ct rows room tt

  Ends-column :
      (ct : ColumnType) (rows room : ℕ)
      → depth ct + 265 * room + 2 < suc fuel
      → Ends room Any (skip_column_data s ct rows)
  unfolding skip_column_data
  Ends-column ct rows room h =
      Ends-if Any room (rows == 0) _ _ (Ends-Any room tt) (Ends-skip_rows ct rows room h)

  Ends-prefix :
      (ct : ColumnType) (room : ℕ)
      → depth ct + 265 * room < suc fuel
      → Ends room (λ state. layers state ≤ room) (skip_state_prefix s ct)
  unfolding skip_state_prefix depth layers
  Ends-prefix (ColumnType.nullable inner) room h =
      Ends-bind (λ state. layers state ≤ room) _ room _ _ (prefix inner room (omega arith))
        λ state few. Ends-pure _ room (State.nullable_state state) few
  Ends-prefix (ColumnType.array inner) room h =
      Ends-bind (λ state. layers state ≤ room) _ room _ _ (prefix inner room (omega arith))
        λ state few. Ends-pure _ room (State.array_state state) few
  Ends-prefix (ColumnType.low_cardinality inner) room h =
      Ends-bind (λ state. layers state ≤ room) _ room _ _ (prefix inner room (omega arith))
        λ state few. Ends-pure _ room (State.low_cardinality_state state) few
  Ends-prefix (ColumnType.map key value) room h =
      Ends-bind (λ state. layers state ≤ room) _ room _ _ (prefix key room (omega arith))
        λ k a.
          Ends-bind (λ state. layers state ≤ room) _ room _ _ (prefix value room (omega arith))
            λ v b. Ends-pure _ room (State.map_state k v) (omega arith)
  Ends-prefix (ColumnType.tuple elems) room h =
      Ends-bind (λ states. layers_all states ≤ room) _ room _ _
        (Ends-prefixes s fuel r room elems (omega arith))
        λ states few. Ends-pure _ room (State.tuple_state states) few
  Ends-prefix (ColumnType.variant types) room h =
      Ends-bind (λ states. layers_all states ≤ room) _ room _ _
        (Ends-prefixes s fuel r room types (omega arith))
        λ states few. Ends-pure _ room (State.variant_state states) few
  Ends-prefix ColumnType.dynamic room h =
      Ends-bind (λ d. suc (layers_dynamic d) ≤ room) _ room _ _
        (Ends-dynamic_state s fuel r room (omega arith))
        λ d few. Ends-pure _ room (State.dynamic_skip d) few
  Ends-prefix ColumnType.json room h =
      Ends-bind (λ j. suc (layers_json j) ≤ room) _ room _ _
        (Ends-json_state s fuel r room (omega arith))
        λ j few. Ends-pure _ room (State.json_skip j) few
  Ends-prefix ColumnType.uint8 room h = Ends-pure _ room State.no_state (omega arith)
  Ends-prefix _ room h = Ends-pure _ room State.no_state (omega arith)

  Ends-bodies :
      (elems : ColumnTypes) (parts : SkipStates) (idx rows room : ℕ)
      → depth_all elems + 265 * layers_all parts + 1 < fuel
      → Ends room Any (skip_bodies s elems parts idx rows)
  unfolding skip_bodies depth_all
  Ends-bodies none_left parts idx rows room h = Ends-Any room tt
  Ends-bodies (one_more elem elems) parts idx rows room h =
      Ends-then Any room _ _
        (body elem (state_at parts idx) rows room (omega (arith, state_at-layers parts idx)))
        (λ _. Ends-bodies elems parts (suc idx) rows room (omega arith))

  Ends-json_part :
      (state : SkipState) (rows room : ℕ)
      → 265 * layers state + 1 < suc fuel
      → Ends room Any (skip_json_part s state rows)
  unfolding skip_json_part layers
  Ends-json_part (State.json_skip j) rows room h = Ends-json_body s fuel r room j rows (omega arith)
  Ends-json_part State.no_state rows room h = Ends-raise Any room _
  Ends-json_part _ rows room h = Ends-raise Any room _

  Ends-dynamic_part :
      (state : SkipState) (rows room : ℕ)
      → 265 * layers state + 1 < suc fuel
      → Ends room Any (skip_dynamic_part s state rows)
  unfolding skip_dynamic_part layers
  Ends-dynamic_part (State.dynamic_skip d) rows room h =
      Ends-dynamic_body s fuel r room d rows (omega arith)
  Ends-dynamic_part State.no_state rows room h = Ends-raise Any room _
  Ends-dynamic_part _ rows room h = Ends-raise Any room _

  Ends-raw_rows :
      (ct : ColumnType) (state : SkipState) (rows room : ℕ)
      → depth ct + 265 * layers state + 1 < suc fuel
      → Ends room Any (skip_raw_rows s ct state rows)
  unfolding skip_raw_rows depth IsLeaf LeafEnds
  Ends-raw_rows (ColumnType.nullable inner) state rows room h =
      let here =
        body inner (nullable_part state) rows room (omega (arith, nullable_part-layers state)) in
      search (part_ends, here)
  Ends-raw_rows (ColumnType.array inner) state rows room h = search (
    part_ends,
    Ends-some_rows s fuel r,
    λ (n : ℕ). body inner (array_part state) n room (omega (arith, array_part-layers state)),
  )
  Ends-raw_rows (ColumnType.map key value) state rows room h = search (
    part_ends,
    Ends-some_rows s fuel r,
    λ (n : ℕ). body key (map_parts state).0 n room (omega (arith, map_parts-layers state)),
    λ (n : ℕ). body value (map_parts state).1 n room (omega (arith, map_parts-layers state)),
  )
  Ends-raw_rows (ColumnType.tuple elems) state rows room h =
      Ends-bodies elems (tuple_parts state) 0 rows room (omega (arith, tuple_parts-layers state))
  Ends-raw_rows (ColumnType.low_cardinality inner) state rows room h =
      Ends-lc_column s fuel r room inner rows (lc_part state) (omega (arith, lc_part-layers state))
  Ends-raw_rows ColumnType.json state rows room h = Ends-json_part state rows room (omega arith)
  Ends-raw_rows ColumnType.dynamic state rows room h =
      Ends-dynamic_part state rows room (omega arith)
  Ends-raw_rows (ColumnType.variant types) state rows room h =
      Ends-variant_body s fuel r room types (variant_parts state) rows
        (omega (arith, variant_parts-layers state))
  Ends-raw_rows ColumnType.point state rows room h =
      let here = body ColumnType.float64 State.no_state rows room (omega (arith, none_layers)) in
      search (part_ends, here)
  Ends-raw_rows ColumnType.ring state rows room h =
      body (ColumnType.array ColumnType.point) State.no_state rows room (omega (arith, none_layers))
  Ends-raw_rows ColumnType.polygon state rows room h =
      body (ColumnType.array ColumnType.ring) State.no_state rows room (omega (arith, none_layers))
  Ends-raw_rows ColumnType.multi_polygon state rows room h =
      body (ColumnType.array ColumnType.polygon) State.no_state rows room
        (omega (arith, none_layers))
  Ends-raw_rows ColumnType.uint8 state rows room h =
      leaf ColumnType.uint8 rows room (omega arith) tt
  Ends-raw_rows ct state rows room h = leaf ct rows room (omega arith) tt

  Ends-body :
      (ct : ColumnType) (state : SkipState) (rows room : ℕ)
      → depth ct + 265 * layers state + 1 < suc fuel
      → Ends room Any (skip_body_raw s ct state rows)
  unfolding skip_body_raw
  Ends-body ct state rows room h =
      Ends-if Any room (rows == 0) _ _ (Ends-Any room tt) (Ends-raw_rows ct state rows room h)

skipper-LeafEnds : (fuel : ℕ) → LeafEnds (skipper fuel) fuel
unfolding LeafEnds skipper skip_column_data
skipper-LeafEnds zero ct rows room h leaf = absurd (omega arith)
skipper-LeafEnds (suc fuel) ct rows room h leaf =
    Ends-if Any room (rows == 0) _ _ (Ends-Any room tt)
      (leaf_rows-Ends (skipper fuel) ct rows room leaf)

pub skipper-EndsAll : (fuel : ℕ) → EndsAll (skipper fuel) fuel
unfolding skipper
skipper-EndsAll zero = record {
  column = λ ct rows room h. absurd (omega arith);
  prefix = λ ct room h. absurd (omega arith);
  body = λ ct state rows room h. absurd (omega arith);
}
skipper-EndsAll (suc fuel) =
    let r = skipper-EndsAll fuel in
    let leaf = skipper-LeafEnds fuel in
    record {
      column = Ends-column (skipper fuel) fuel r leaf;
      prefix = Ends-prefix (skipper fuel) fuel r leaf;
      body = Ends-body (skipper fuel) fuel r leaf;
    }

named :
    (fuel : ℕ) (parsed : Result ColumnType Message) (rows room : ℕ)
    → Shallow 263 parsed
    → 265 * room + 265 < fuel
    → Ends room Any (elim parsed [
      | ok ct ↦ (skipper fuel).column ct rows
      | err e ↦ skip_string_rows rows "string value length"
    ])
unfolding Shallow
named fuel (ok ct) rows room few h = (skipper-EndsAll fuel).column ct rows room (omega arith)
named fuel (err e) rows room few h = Ends-skip_string_rows room rows "string value length"

-- Skipping always returns: from a position inside the buffer, on any bytes and any type name, 265
-- nested calls for each byte of the buffer and 266 more are enough fuel. It succeeds or fails, and
-- where it succeeds the position has moved forward and is inside the buffer.
pub skip_column_data_by_name-Ends :
    (fuel : ℕ) (name : List ℕ) (rows : ℕ) (buf : List ℕ) (pos : ℕ)
    → pos ≤ length buf
    → 265 * length buf + 265 < fuel
    → Returned buf pos Any (skip_column_data_by_name fuel name rows buf pos)
unfolding skip_column_data_by_name Ends
skip_column_data_by_name-Ends fuel name rows buf pos inside enough =
    named fuel (parse_type name) rows (length buf) (parse_type-Shallow name) enough buf pos inside
      (omega arith)
