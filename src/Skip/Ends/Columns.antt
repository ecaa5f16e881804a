-- ===== src/Skip/Ends/Columns.antt =====
-- The functions of shared/skip_column.rs that recur, over functions for columns that return.
use st_clickhouse_lib.Common.{
  ℕ, zero, suc, ◌+◌, ◌*◌, ◌≤◌, ◌<◌, List, [], ◌∷◌, none, some, Result, ok, err, ltb, if◌then◌else◌,
  arith,
}
use st_clickhouse_lib.Error.{Message, protocol, message, bytes}
use st_clickhouse_lib.ColumnType.{ColumnType, ColumnTypes, none_left, one_more, nth_type}
use st_clickhouse_lib.ColumnType.Depth.{depth, depth_all}
use st_clickhouse_lib.TypeParser.Parser.{parse_type}
use st_clickhouse_lib.TypeParser.Nesting.{Shallow, parse_type-Shallow}
use st_clickhouse_lib.Wire.Cursor.{Cursor, pure, lift}
use st_clickhouse_lib.Wire.Ends.{Ends, Any, Ends-Any, Ends-if, Ends-bind, Ends-then}
use st_clickhouse_lib.Skip.State.{
  SkipState, SkipStates, DynamicSkipState, dynamic_state, state_at, Skipper,
}
use st_clickhouse_lib.Skip.Layers.{layers, layers_all, layers_dynamic, state_at-layers}
use st_clickhouse_lib.Skip.Body.{
  skip_counted_subcolumns, skip_dynamic_layout, skip_dynamic_body, skip_variant_subcolumns,
  skip_compact_variant, skip_variant_mode, skip_variant_body, parse_dynamic_type,
}
use st_clickhouse_lib.Skip.Column.{skip_lc_column}
use st_clickhouse_lib.Skip.Dispatch.{skip_columns, some_rows}
use st_clickhouse_lib.Skip.Ends.Parts.{part_ends}

-- A type that is parsed from a name nests 263 levels at most; 265 units of fuel are enough for one
-- layer of Dynamic or JSON.
lift-Shallow :
    (room : ℕ) (name : List ℕ) (parsed : Result ColumnType Message)
    → Shallow 263 parsed
    → Ends room
        (λ ct. depth ct ≤ 263)
        (lift (elim parsed [
          | ok ct ↦ ok ct
          | err e ↦ err (protocol (message "bad dynamic type '{}'" (bytes name ∷ [])))
        ]))
unfolding Ends lift Shallow
lift-Shallow room name (ok ct) h buf pos inside few = (omega arith, inside, h)
lift-Shallow room name (err e) h buf pos inside few = tt

pub Ends-parsed :
    (room : ℕ) (name : List ℕ) → Ends room (λ ct. depth ct ≤ 263) (lift (parse_dynamic_type name))
unfolding parse_dynamic_type
Ends-parsed room name = lift-Shallow room name (parse_type name) (parse_type-Shallow name)

-- What the functions for columns do with `fuel`. A state's own fuel is for its layers; a column or
-- a prefix may have to read one more layer from every byte of the buffer.
pub record EndsAll (s : Skipper) (fuel : ℕ) : Type 0 where
  pub column :
      (ct : ColumnType) (rows room : ℕ)
      → depth ct + 265 * room + 2 < fuel
      → Ends room Any (s.column ct rows)
  pub prefix :
      (ct : ColumnType) (room : ℕ)
      → depth ct + 265 * room < fuel
      → Ends room (λ state. layers state ≤ room) (s.prefix ct)
  pub body :
      (ct : ColumnType) (state : SkipState) (rows room : ℕ)
      → depth ct + 265 * layers state + 1 < fuel
      → Ends room Any (s.body ct state rows)

module _ (s : Skipper) (fuel : ℕ) (r : EndsAll s fuel) where
  open r use {column, prefix, body}

  pub Ends-counted :
      (room : ℕ) (names : List (List ℕ)) (states : SkipStates) (counts : List ℕ) (idx : ℕ)
      → 263 + 265 * layers_all states + 1 < fuel
      → Ends room Any (skip_counted_subcolumns s names states counts idx)
  unfolding skip_counted_subcolumns
  Ends-counted room [] states counts idx h = Ends-Any room tt
  Ends-counted room (name ∷ names) states [] idx h = Ends-Any room tt
  Ends-counted room (name ∷ names) states (count ∷ counts) idx h =
      let rest = Ends-counted room names states counts (idx + 1) h in
      Ends-if Any room _ _ _ rest (
        Ends-bind _ Any room _ _ (Ends-parsed room name) λ ct d.
          Ends-then Any room _ _
            (body ct (state_at states idx) count room (omega (arith, state_at-layers states idx)))
            (λ _. rest))

  pub Ends-dynamic_layout :
      (room version : ℕ) (names : List (List ℕ)) (states : SkipStates) (rows : ℕ)
      → 263 + 265 * layers_all states + 1 < fuel
      → Ends room Any (skip_dynamic_layout s version names states rows)
  unfolding skip_dynamic_layout
  Ends-dynamic_layout room version names states rows h =
      search (part_ends, λ (counts : List ℕ) (idx : ℕ). Ends-counted room names states counts idx h)
        depth 12

  pub Ends-dynamic_body :
      (room : ℕ) (state : DynamicSkipState) (rows : ℕ)
      → 263 + 265 * layers_dynamic state + 1 < fuel
      → Ends room Any (skip_dynamic_body s state rows)
  unfolding skip_dynamic_body layers_dynamic
  Ends-dynamic_body room (dynamic_state version names states) rows h =
      search (part_ends, Ends-dynamic_layout room version names states rows h)

  pub Ends-variant_subcolumns :
      (room : ℕ) (types : ColumnTypes) (states : SkipStates) (counts : List ℕ) (idx : ℕ)
      → depth_all types + 265 * layers_all states + 1 < fuel
      → Ends room Any (skip_variant_subcolumns s types states counts idx)
  unfolding skip_variant_subcolumns depth_all
  Ends-variant_subcolumns room none_left states counts idx h = Ends-Any room tt
  Ends-variant_subcolumns room (one_more typ types) states [] idx h = Ends-Any room tt
  Ends-variant_subcolumns room (one_more typ types) states (count ∷ counts) idx h =
      let rest = Ends-variant_subcolumns room types states counts (idx + 1) (omega arith) in
      let here =
        body typ (state_at states idx) count room (omega (arith, state_at-layers states idx)) in
      search (part_ends, here, rest)

  picked :
      (room : ℕ) (types : ColumnTypes) (states : SkipStates) (i n k : ℕ)
      → depth_all types + 265 * layers_all states + 1 < fuel
      → Ends room Any (elim (nth_type types i) [
        | none ↦ pure tt
        | some typ ↦ if ltb 0 n then s.body typ (state_at states k) n else pure tt
      ])
  unfolding depth_all
  picked room none_left states i n k h = Ends-Any room tt
  picked room (one_more typ types) states zero n k h =
      let here = body typ (state_at states k) n room (omega (arith, state_at-layers states k)) in
      search (part_ends, here)
  picked room (one_more typ types) states (suc i) n k h =
      picked room types states i n k (omega arith)

  pub Ends-variant_body :
      (room : ℕ) (types : ColumnTypes) (states : SkipStates) (rows : ℕ)
      → depth_all types + 265 * layers_all states + 1 < fuel
      → Ends room Any (skip_variant_body s types states rows)
  unfolding skip_variant_body skip_variant_mode skip_compact_variant
  Ends-variant_body room types states rows h =
      search
        (
          part_ends,
          λ (counts : List ℕ) (idx : ℕ). Ends-variant_subcolumns room types states counts idx h,
          λ (i n k : ℕ). picked room types states i n k h,
        )
        depth 16

  pub Ends-lc_column :
      (room : ℕ) (inner : ColumnType) (rows : ℕ) (state : SkipState)
      → depth inner + 265 * layers state + 1 < fuel
      → Ends room Any (skip_lc_column s inner rows state)
  unfolding skip_lc_column
  Ends-lc_column room inner rows state h =
      search (part_ends, λ (n : ℕ). body inner state n room h) depth 16

  pub Ends-columns :
      (room : ℕ) (elems : ColumnTypes) (rows : ℕ)
      → depth_all elems + 265 * room + 2 < fuel
      → Ends room Any (skip_columns s elems rows)
  unfolding skip_columns depth_all
  Ends-columns room none_left rows h = Ends-Any room tt
  Ends-columns room (one_more elem elems) rows h =
      Ends-then Any room _ _ (column elem rows room (omega arith))
        (λ _. Ends-columns room elems rows (omega arith))

  pub Ends-some_rows :
      (room total : ℕ) (inner : ℕ → Cursor (Unit {0}))
      → ((n : ℕ) → Ends room Any (inner n))
      → Ends room Any (some_rows s total inner)
  unfolding some_rows
  Ends-some_rows room total inner h = search (part_ends, h)
