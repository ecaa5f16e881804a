-- ===== src/Skip/Body.antt =====
-- LowCardinality, Variant, Dynamic and JSON in shared/skip_column.rs.
use st_clickhouse_lib.Common.{
  ℕ, zero, suc, ◌+◌, List, [], ◌∷◌, ◌||◌, none, some, Result, ok, err, length, replicate, ltb, ◌==◌,
  if◌then◌else◌,
}
use st_clickhouse_lib.Error.{Error, protocol, message, num, bytes}
use st_clickhouse_lib.ColumnType.{
  ColumnType, ColumnTypes, none_left, one_more, count_types, nth_type,
}
use st_clickhouse_lib.TypeParser.Parser.{parse_type}
use st_clickhouse_lib.Wire.Cursor.{Cursor, done, pure, raise, lift, ◌>>=◌, ◌>>◌}
use st_clickhouse_lib.Wire.Parse.{slice}
use st_clickhouse_lib.Skip.State.{SkipStates, DynamicSkipState, dynamic_state, state_at, Skipper}
use st_clickhouse_lib.Skip.Primitives.{
  checked_len, checked_usize, advance_pos, read_u64_le, chunks, dynamic_discriminator_width,
  decode_dynamic_discriminator,
}

-- `&buf[start..*pos]` behind an `advance_pos` of `len` bytes.
unfoldable pub take_bytes : ℕ → Cursor (List ℕ)
unfolding advance_pos
take_bytes len buf pos = (advance_pos len >> (λ buf end. done (slice buf pos end) end)) buf pos

-- `counts[idx] += 1`
unfoldable pub bump : List ℕ → ℕ → List ℕ
bump [] i = []
bump (n ∷ counts) zero = (n + 1) ∷ counts
bump (n ∷ counts) (suc i) = n ∷ bump counts i

-- The scans over the discriminators, one for each layout. `types` is the number of types.
unfoldable pub count_variant : List ℕ → List ℕ → List ℕ
unfolding bump
count_variant counts [] = counts
count_variant counts (idx ∷ ds) =
    count_variant (if ltb idx (length counts) then bump counts idx else counts) ds

unfoldable pub count_deprecated : ℕ → List ℕ → List ℕ → Result (List ℕ) Error
unfolding bump
count_deprecated types counts [] = ok counts
count_deprecated types counts (idx ∷ ds) =
    let next = count_deprecated types (bump counts idx) ds in
    let skip = count_deprecated types counts ds in
    if ltb idx (length counts)
    then next
    else if idx == 255
    then skip
    else err (
        protocol (
          message "deprecated Dynamic discriminator {} exceeds type count {}"
            (num idx ∷ num types ∷ [])))

unfoldable pub count_flattened : ℕ → List ℕ → List (List ℕ) → Result (List ℕ) Error
unfolding bump decode_dynamic_discriminator
count_flattened types counts [] = ok counts
count_flattened types counts (chunk ∷ ds) = elim (decode_dynamic_discriminator chunk) [
  | err e ↦ err e
  | ok idx ↦
      let next = count_flattened types (bump counts idx) ds in
      let skip = count_flattened types counts ds in
      if ltb idx (length counts)
      then next
      else if idx == types
      then skip
      else err (
          protocol
            (message "Dynamic discriminator {} exceeds type count {}" (num idx ∷ num types ∷ [])))
]

-- The message of the parser is left out of the message here.
unfoldable pub parse_dynamic_type : List ℕ → Result ColumnType Error
unfolding parse_type
parse_dynamic_type name = elim (parse_type name) [
  | ok ct ↦ ok ct
  | err e ↦ err (protocol (message "bad dynamic type '{}'" (bytes name ∷ [])))
]

module _ (s : Skipper) where
  -- The subcolumns in type order, each with the row count that was observed.
  unfoldable pub skip_counted_subcolumns :
      List (List ℕ) → SkipStates → List ℕ → ℕ → Cursor (Unit {0})
  unfolding parse_dynamic_type
  skip_counted_subcolumns [] _ counts idx = pure tt
  skip_counted_subcolumns (name ∷ names) _ [] idx = pure tt
  skip_counted_subcolumns (name ∷ names) states (count ∷ counts) idx =
      let rest = skip_counted_subcolumns names states counts (idx + 1) in
      if count == 0
      then rest
      else (lift (parse_dynamic_type name) >>= λ ct. s.body ct (state_at states idx) count >> rest)

  unfoldable pub skip_dynamic_layout : ℕ → List (List ℕ) → SkipStates → ℕ → Cursor (Unit {0})
  unfolding skip_counted_subcolumns take_bytes count_deprecated count_flattened
  skip_dynamic_layout version names states rows =
      let none_yet = replicate (length names) 0 in
      let width = dynamic_discriminator_width (length names) in
      if version == 0
      then pure tt
      else if version == 1
      then (take_bytes rows >>= λ ds.
          lift (count_deprecated (length names) none_yet ds) >>= λ counts.
          skip_counted_subcolumns names states counts 0)
      else if (version == 2) || (version == 3)
      then (lift (checked_len rows width) >>= λ len. take_bytes len >>= λ ds.
          lift (count_flattened (length names) none_yet (chunks width rows ds)) >>= λ counts.
          skip_counted_subcolumns names states counts 0)
      else raise (protocol (message "unknown Dynamic serialization version {}" (num version ∷ [])))

  unfoldable pub skip_dynamic_body : DynamicSkipState → ℕ → Cursor (Unit {0})
  unfolding skip_dynamic_layout
  skip_dynamic_body (dynamic_state version names states) rows =
      if (rows == 0) || (length names == 0)
      then pure tt
      else skip_dynamic_layout version names states rows

  -- The subcolumns of a Variant that occur, in order.
  unfoldable pub skip_variant_subcolumns : ColumnTypes → SkipStates → List ℕ → ℕ → Cursor (Unit {0})
  skip_variant_subcolumns none_left _ counts idx = pure tt
  skip_variant_subcolumns (one_more typ types) _ [] idx = pure tt
  skip_variant_subcolumns (one_more typ types) states (count ∷ counts) idx =
      let rest = skip_variant_subcolumns types states counts (idx + 1) in
      if ltb 0 count then (s.body typ (state_at states idx) count >> rest) else rest

  -- Mode 1: one granule for at most one variant.
  unfoldable pub skip_compact_variant : ColumnTypes → SkipStates → ℕ → Cursor (Unit {0})
  skip_compact_variant types states rows = do
    raw_discriminator ← read_u64_le
    discriminator ← lift (checked_usize raw_discriminator "Variant compact discriminator")
    raw_rows ← read_u64_le
    compact_rows ← lift (checked_usize raw_rows "Variant compact rows")
    if ltb rows compact_rows
        then raise (
            protocol (
              message "Variant compact rows {} exceeds row count {}"
                (num compact_rows ∷ num rows ∷ [])))
        else elim (nth_type types discriminator) [
          | none ↦ pure tt
          | some typ ↦
              if ltb 0 compact_rows
              then s.body typ (state_at states discriminator) compact_rows
              else pure tt
        ]

  unfoldable pub skip_variant_mode : ColumnTypes → SkipStates → ℕ → ℕ → Cursor (Unit {0})
  unfolding skip_variant_subcolumns skip_compact_variant take_bytes count_variant
  skip_variant_mode types states rows mode =
      if (rows == 0) || (count_types types == 0)
      then pure tt
      else if mode == 0
      then (take_bytes rows >>= λ ds.
          skip_variant_subcolumns types states (count_variant (replicate (count_types types) 0) ds)
            0)
      else if mode == 1
      then skip_compact_variant types states rows
      else raise (protocol (message "unknown Variant serialization mode {}" (num mode ∷ [])))

  -- The mode is read before the early return on no rows.
  unfoldable pub skip_variant_body : ColumnTypes → SkipStates → ℕ → Cursor (Unit {0})
  unfolding skip_variant_mode read_u64_le
  skip_variant_body types states rows = read_u64_le >>= skip_variant_mode types states rows
