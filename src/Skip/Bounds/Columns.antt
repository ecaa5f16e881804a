-- ===== src/Skip/Bounds/Columns.antt =====
-- Whole columns, state prefixes and raw bodies.
use st_clickhouse_lib.Common.{ℕ, zero, suc, List, [], ◌∷◌, none, some, ltb, if◌then◌else◌}
use st_clickhouse_lib.ColumnType.{ColumnType, ColumnTypes, none_left, one_more, nth_type}
use st_clickhouse_lib.Wire.Cursor.{Cursor, pure, lift}
use st_clickhouse_lib.Wire.Reads.{Reads, Reads-pure, Reads-lift, Reads-bind}
use st_clickhouse_lib.Skip.State.{
  SkipState, SkipStates, DynamicSkipState, dynamic_state, DynamicSkipStates, no_paths, more_paths,
  JsonSkipState, json_state, state_at, Skipper,
}
use st_clickhouse_lib.Skip.Body.{
  skip_counted_subcolumns, skip_dynamic_layout, skip_dynamic_body, skip_variant_subcolumns,
  skip_compact_variant, skip_variant_mode, skip_variant_body, parse_dynamic_type,
}
use st_clickhouse_lib.Skip.Column.{
  skip_lc_column, skip_prefixes, skip_named_prefixes, dynamic_type_names, skip_dynamic_state,
  skip_path_states, skip_json_paths, skip_json_state, skip_path_bodies, skip_json_body_raw,
}
use st_clickhouse_lib.Skip.Dispatch.{skip_columns, some_rows}
use st_clickhouse_lib.Skip.Bounds.Parts.{part_reads}

pub record ReadsAll (s : Skipper) : Type 0 where
  pub column : (ct : ColumnType) (rows : ℕ) → Reads (s.column ct rows)
  pub prefix : (ct : ColumnType) → Reads (s.prefix ct)
  pub body : (ct : ColumnType) (state : SkipState) (rows : ℕ) → Reads (s.body ct state rows)

module _ (s : Skipper) (r : ReadsAll s) where
  open r use {column, prefix, body}

  pub Reads-counted :
      (names : List (List ℕ)) (states : SkipStates) (counts : List ℕ) (idx : ℕ)
      → Reads (skip_counted_subcolumns s names states counts idx)
  unfolding skip_counted_subcolumns
  Reads-counted [] states counts idx = Reads-pure tt
  Reads-counted (name ∷ names) states [] idx = Reads-pure tt
  Reads-counted (name ∷ names) states (count ∷ counts) idx =
      search (part_reads, body, Reads-counted names states counts)

  pub Reads-dynamic_layout :
      (version : ℕ) (names : List (List ℕ)) (states : SkipStates) (rows : ℕ)
      → Reads (skip_dynamic_layout s version names states rows)
  unfolding skip_dynamic_layout
  Reads-dynamic_layout version names states rows = search (part_reads, Reads-counted) depth 12

  pub Reads-dynamic_body :
      (state : DynamicSkipState) (rows : ℕ) → Reads (skip_dynamic_body s state rows)
  unfolding skip_dynamic_body
  Reads-dynamic_body (dynamic_state version names states) rows =
      search (part_reads, Reads-dynamic_layout)

  pub Reads-variant_subcolumns :
      (types : ColumnTypes) (states : SkipStates) (counts : List ℕ) (idx : ℕ)
      → Reads (skip_variant_subcolumns s types states counts idx)
  unfolding skip_variant_subcolumns
  Reads-variant_subcolumns none_left states counts idx = Reads-pure tt
  Reads-variant_subcolumns (one_more typ types) states [] idx = Reads-pure tt
  Reads-variant_subcolumns (one_more typ types) states (count ∷ counts) idx =
      search (part_reads, body, Reads-variant_subcolumns types states counts)

  pub Reads-compact_variant :
      (types : ColumnTypes) (states : SkipStates) (rows : ℕ)
      → Reads (skip_compact_variant s types states rows)
  unfolding skip_compact_variant
  Reads-compact_variant types states rows = search (part_reads, picked) depth 12
    where
      picked :
          (i n : ℕ)
          → Reads (elim (nth_type types i) [
            | none ↦ pure tt
            | some typ ↦ if ltb 0 n then s.body typ (state_at states i) n else pure tt
          ])
      picked i n =
          elim (nth_type types i)
            as (λ o. Reads (elim o [
              | none ↦ pure tt
              | some typ ↦ if ltb 0 n then s.body typ (state_at states i) n else pure tt
            ])) [ none ↦ Reads-pure tt | some typ ↦ search (part_reads, body) ]

  pub Reads-variant_mode :
      (types : ColumnTypes) (states : SkipStates) (rows mode : ℕ)
      → Reads (skip_variant_mode s types states rows mode)
  unfolding skip_variant_mode
  Reads-variant_mode types states rows mode =
      search (part_reads, Reads-variant_subcolumns, Reads-compact_variant) depth 12

  pub Reads-variant_body :
      (types : ColumnTypes) (states : SkipStates) (rows : ℕ)
      → Reads (skip_variant_body s types states rows)
  unfolding skip_variant_body
  Reads-variant_body types states rows = search (part_reads, Reads-variant_mode)

  pub Reads-lc_column :
      (inner : ColumnType) (rows : ℕ) (state : SkipState)
      → Reads (skip_lc_column s inner rows state)
  unfolding skip_lc_column
  Reads-lc_column inner rows state = search (part_reads, body) depth 16

  pub Reads-prefixes : (types : ColumnTypes) → Reads (skip_prefixes s types)
  unfolding skip_prefixes
  Reads-prefixes none_left = Reads-pure _
  Reads-prefixes (one_more typ types) =
      Reads-bind (s.prefix typ) _ (prefix typ) (λ state.
        Reads-bind (skip_prefixes s types) _ (Reads-prefixes types) (λ rest. Reads-pure _))

  pub Reads-named_prefixes : (names : List (List ℕ)) → Reads (skip_named_prefixes s names)
  unfolding skip_named_prefixes
  Reads-named_prefixes [] = Reads-pure _
  Reads-named_prefixes (name ∷ names) =
      Reads-bind (lift (parse_dynamic_type name)) _ (Reads-lift _) λ ct.
        Reads-bind (s.prefix ct) _ (prefix ct) λ state.
          Reads-bind (skip_named_prefixes s names) _ (Reads-named_prefixes names)
            (λ rest. Reads-pure _)

  pub Reads-type_names : (version : ℕ) → Reads (dynamic_type_names s version)
  unfolding dynamic_type_names
  Reads-type_names version = search part_reads depth 12

  pub Reads-dynamic_state : Reads (skip_dynamic_state s)
  unfolding skip_dynamic_state
  Reads-dynamic_state = search (part_reads, Reads-type_names, Reads-named_prefixes) depth 10

  pub Reads-path_states : (n : ℕ) → Reads (skip_path_states s n)
  unfolding skip_path_states
  Reads-path_states zero = Reads-pure _
  Reads-path_states (suc n) =
      Reads-bind (skip_dynamic_state s) _ Reads-dynamic_state
        λ path. Reads-bind (skip_path_states s n) _ (Reads-path_states n) (λ rest. Reads-pure _)

  pub Reads-json_paths : Reads (skip_json_paths s)
  unfolding skip_json_paths
  Reads-json_paths = search (part_reads, Reads-path_states) depth 10

  pub Reads-json_state : Reads (skip_json_state s)
  unfolding skip_json_state
  Reads-json_state = search (part_reads, Reads-json_paths) depth 10

  pub Reads-path_bodies :
      (paths : DynamicSkipStates) (rows : ℕ) → Reads (skip_path_bodies s paths rows)
  unfolding skip_path_bodies
  Reads-path_bodies no_paths rows = Reads-pure tt
  Reads-path_bodies (more_paths path paths) rows =
      search (part_reads, Reads-dynamic_body, Reads-path_bodies paths)

  pub Reads-json_body : (state : JsonSkipState) (rows : ℕ) → Reads (skip_json_body_raw s state rows)
  unfolding skip_json_body_raw
  Reads-json_body (json_state version paths) rows = search (part_reads, Reads-path_bodies) depth 10

  pub Reads-columns : (elems : ColumnTypes) (rows : ℕ) → Reads (skip_columns s elems rows)
  unfolding skip_columns
  Reads-columns none_left rows = Reads-pure tt
  Reads-columns (one_more elem elems) rows = search (part_reads, column, Reads-columns elems)

  pub Reads-some_rows :
      (total : ℕ) (inner : ℕ → Cursor (Unit {0}))
      → ((n : ℕ) → Reads (inner n))
      → Reads (some_rows s total inner)
  unfolding some_rows
  Reads-some_rows total inner h = search (part_reads, h)
