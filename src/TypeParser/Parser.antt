-- ===== src/TypeParser/Parser.antt =====
-- `parse_type` of shared/type_parser.rs. A level of the recursion gets the next one as `rec`.
use st_clickhouse_lib.Common.{
  ℕ, zero, suc, ◌+◌, ◌-◌, ◌^◌, List, [], ◌∷◌, Bool, true, false, not, ◌&&◌, ◌||◌, Option, none,
  some, String, Result, ok, err, ◌>>=◌, length, take, drop, leb, ◌==◌, if◌then◌else◌,
}
use mathlib.Core.Option
use st_clickhouse_lib.Error.{Message, message, num, bytes, txt}
use st_clickhouse_lib.Limits.Caps.{ok_or}
use st_clickhouse_lib.TypeParser.Text.{
  codes, bytes_eq, starts_with, ends_with, find, trim, trim_start_matches, trim_end_matches,
  parse_unsigned, before_comma,
}
use st_clickhouse_lib.TypeParser.Keywords.{simple_types, later_simple_types, find_type}
use st_clickhouse_lib.ColumnType.{
  ColumnType, ColumnTypes, none_left, one_more, fixed_string, date_time, date_time64, decimal,
  enum8, enum16, nullable, array, map, tuple, low_cardinality, aggregate_function,
  simple_aggregate_function, time64, json, variant, other,
}

abbrev pub max_type_nesting : ℕ
max_type_nesting = 256

abbrev pub is_empty : List ℕ → Bool
is_empty [] = true
is_empty (b ∷ s) = false

-- The signed depth of the source is `opened - closed`; `i` is the position of the scan.
unfoldable pub comma_loop : ℕ → ℕ → ℕ → List ℕ → Option ℕ
comma_loop opened closed i [] = none
comma_loop opened closed i (ch ∷ s) =
    let rest =
      comma_loop (if ch == b'(' then opened + 1 else opened)
        (if ch == b')' then closed + 1 else closed) (i + 1) s in
    if ch == b',' && opened == closed then some i else rest

unfoldable pub find_top_level_comma : List ℕ → Option ℕ
unfolding comma_loop
find_top_level_comma s = comma_loop 0 0 0 s

abbrev pub u32_limit : ℕ
u32_limit = 2 ^ 32

-- `inner.trim().parse()`, with the name of the type in the message.
unfoldable pub parse_number : ℕ → String → List ℕ → Result ℕ Message
unfolding parse_unsigned trim
parse_number limit name s =
    ok_or (parse_unsigned limit (trim s)) (message "{}: {}" (txt name ∷ bytes (trim s) ∷ []))

unfoldable pub parse_with : (ℕ → ColumnType) → ℕ → String → List ℕ → Result ColumnType Message
unfolding parse_number
parse_with wrap limit name s = do n ← parse_number limit name s; ok (wrap n)

unfoldable pub parse_decimal : List ℕ → List ℕ → Result ColumnType Message
unfolding parse_number
parse_decimal inner s = elim (find b',' inner) [
  | none ↦ err (message "Decimal needs precision,scale: {}" (bytes s ∷ []))
  | some i ↦ do
    precision ← parse_number u32_limit "Decimal precision" (take i inner)
    scale ← parse_number u32_limit "Decimal scale" (drop (i + 1) inner)
    ok (decimal precision scale)
]

-- The arm `n if n.starts_with("Time64")`.
unfoldable pub parse_time64 : List ℕ → Result ColumnType Message
parse_time64 base =
    ok_or
      (Option.map time64 (
        parse_unsigned u32_limit
          (trim_end_matches (codes ")" ∷ []) (trim_start_matches (codes "Time64(" ∷ []) base))))
      (message "invalid Time64" [])

-- The arms for names without parentheses.
unfoldable pub parse_simple : List ℕ → Result ColumnType Message
unfolding parse_time64 find_type
parse_simple base = elim (find_type base simple_types) [
  | some ct ↦ ok ct
  | none ↦
      if starts_with (codes "Time64") base
      then parse_time64 base
      else elim (find_type base later_simple_types) [ some ct ↦ ok ct | none ↦ ok (other base) ]
]

module _ (rec : List ℕ → Result ColumnType Message) where
  unfoldable pub parse_wrapped : (ColumnType → ColumnType) → List ℕ → Result ColumnType Message
  parse_wrapped wrap inner = do inner_type ← rec inner; ok (wrap inner_type)

  unfoldable pub parse_map : List ℕ → Result ColumnType Message
  unfolding find_top_level_comma
  parse_map inner = do
    comma ←
        ok_or (find_top_level_comma inner)
          (message "cannot parse Map types from: {}" (bytes inner ∷ []))
    kt ← rec (take comma inner)
    vt ← rec (drop (comma + 1) inner)
    ok (map kt vt)

  -- The loop over `remaining`, which loses a comma at least in each round.
  unfoldable pub parse_elems : ℕ → List ℕ → Result ColumnTypes Message
  unfolding find_top_level_comma
  parse_elems zero remaining = err (message "out of rounds" [])
  parse_elems (suc fuel) [] = ok none_left
  parse_elems (suc fuel) (ch ∷ s) = elim (find_top_level_comma (ch ∷ s)) [
    | none ↦ do typ ← rec (ch ∷ s); ok (one_more typ none_left)
    | some pos ↦ do
      typ ← rec (take pos (ch ∷ s))
      types ← parse_elems fuel (drop (pos + 1) (ch ∷ s))
      ok (one_more typ types)
  ]

  unfoldable pub parse_list : (ColumnTypes → ColumnType) → List ℕ → Result ColumnType Message
  unfolding parse_elems
  parse_list wrap inner = do types ← parse_elems (suc (length inner)) inner; ok (wrap types)

  -- The arms for names with parentheses; `s` is the whole text and `inner` the trimmed parameters.
  unfoldable pub parse_params : List ℕ → List ℕ → List ℕ → Result ColumnType Message
  unfolding parse_wrapped parse_map parse_list parse_with parse_decimal before_comma
  parse_params base inner s =
      let is = λ (name : String). bytes_eq base (codes name) in
      if is "Nullable"
      then parse_wrapped nullable inner
      else if is "Array"
      then parse_wrapped array inner
      else if is "Map"
      then parse_map inner
      else if is "Tuple"
      then parse_list tuple inner
      else if is "LowCardinality"
      then parse_wrapped low_cardinality inner
      else if is "Enum8"
      then ok enum8
      else if is "Enum16"
      then ok enum16
      else if is "FixedString"
      then parse_with fixed_string (2 ^ 64) "FixedString" inner
      else if is "DateTime64"
      then parse_with date_time64 u32_limit "DateTime64" (before_comma inner)
      else if is "DateTime"
      then ok date_time
      else if is "Time64"
      then parse_with time64 u32_limit "Time64" (before_comma inner)
      else if is "Decimal32"
      then parse_with (decimal 9) u32_limit "Decimal32" inner
      else if is "Decimal64"
      then parse_with (decimal 18) u32_limit "Decimal64" inner
      else if is "Decimal128"
      then parse_with (decimal 38) u32_limit "Decimal128" inner
      else if is "Decimal256"
      then parse_with (decimal 76) u32_limit "Decimal256" inner
      else if is "Decimal"
      then parse_decimal inner s
      else if is "Variant"
      then parse_list variant inner
      else if is "Object" || is "object"
      then ok json
      else if is "AggregateFunction"
      then ok aggregate_function
      else if is "SimpleAggregateFunction"
      then ok simple_aggregate_function
      else ok (other s)

  -- One level, on a trimmed text.
  unfoldable pub parse_trimmed : List ℕ → Result ColumnType Message
  unfolding parse_params parse_simple find ends_with trim
  parse_trimmed s = elim (find b'(' s) [
    | none ↦ if is_empty s then err (message "empty type name" []) else parse_simple s
    | some paren ↦
        if is_empty (take paren s)
        then err (message "empty type name" [])
        else if not (ends_with (codes ")") s) || leb (length s) (paren + 1)
        then err (message "malformed type name (unclosed paren): {}" (bytes s ∷ []))
        else parse_params (take paren s)
            (trim (take (length s - 1 - (paren + 1)) (drop (paren + 1) s))) s
  ]

-- `left` is `max_type_nesting + 1 - depth`: with none left, the depth is beyond the cap.
unfoldable pub parse_type_rec : ℕ → List ℕ → Result ColumnType Message
unfolding parse_trimmed
parse_type_rec zero s = err (message "type nesting exceeds {} levels" (num max_type_nesting ∷ []))
parse_type_rec (suc left) s = parse_trimmed (parse_type_rec left) (trim s)

unfoldable pub parse_type : List ℕ → Result ColumnType Message
unfolding parse_type_rec
parse_type s = parse_type_rec (suc max_type_nesting) s
