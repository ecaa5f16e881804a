-- ===== src/Response/Blocks/RoundTrip.antt =====
-- What shared/block_writer.rs writes, sync/protocol/response.rs reads back.
use st_clickhouse_lib.Common.{
  ℕ, zero, suc, ◌-◌, ◌^◌, ◌≤◌, ◌<◌, ◌≡◌, refl, ap, sym, subst, List, [], ◌∷◌, ◌++◌, String, length,
  true, false, none, ok, map_err, All, arith,
}
use st_clickhouse_lib.Common.Bytes.{to_le_bytes, length-to_le_bytes}
use st_clickhouse_lib.Error.{protocol}
use st_clickhouse_lib.ColumnType.{ColumnType}
use st_clickhouse_lib.Limits.Caps.{
  max_string_bytes, max_block_rows, checked_count, usize_try_from, checked_add,
}
use st_clickhouse_lib.TypeParser.Parser.{parse_type}
use st_clickhouse_lib.Wire.Cursor.{Cursor, pure, collect}
use st_clickhouse_lib.Wire.Utf8.{is_utf8}
use st_clickhouse_lib.Wire.Parse.{parse_varint, parse_bytes, parse_string}
use st_clickhouse_lib.Wire.Write.{write_varint, write_string}
use st_clickhouse_lib.Wire.Strings.{length_at, slice_at}
use st_clickhouse_lib.Wire.Parses.{
  Parses, Parses-pure, Parses-lift, Parses-bind, Parses-checked, Parses-mapped, Parses-collect,
  all_bytes, Parses-parse_varint, Parses-parse_bytes, Parses-parse_string,
}
use st_clickhouse_lib.Skip.Primitives.{advance_pos}
use st_clickhouse_lib.Skip.Dispatch.{skipper}
use st_clickhouse_lib.Block.{ColumnInfo, Block}
use st_clickhouse_lib.Block.Write.{block_info_bytes, write_column, write_columns, write_block}
use st_clickhouse_lib.Response.Columns.{
  bad_type, is_json, contains_nested_json, lc_inner, materialized_column_data_start, data_behind,
  data_between, plain_column_data, parse_column_data, parse_column,
}
use st_clickhouse_lib.Response.Blocks.{
  advance, skip_block_info, count_of, max_block_columns, block_body_with, parse_block_body,
}

-- A column that is written as it is read: its name and type are UTF-8 strings of at most 2^24 - 1
-- bytes, its data is one whole column of its type, and the type is neither LowCardinality nor JSON
-- nor holds JSON.
pub record ColumnFits (fuel rows : ℕ) (col : ColumnInfo) : Type 0 where
  pub ct : ColumnType
  pub name_utf8 : is_utf8 col.name ≡ true
  pub name_short : length col.name ≤ max_string_bytes
  pub type_utf8 : is_utf8 col.type_name ≡ true
  pub type_short : length col.type_name ≤ max_string_bytes
  pub typed : parse_type col.type_name ≡ ok ct
  pub no_dictionary : lc_inner ct ≡ none
  pub no_json : is_json ct ≡ false
  pub no_nested_json : contains_nested_json ct ≡ false
  pub whole : Parses ((skipper fuel).column ct rows) tt col.data_bytes
  pub unmaterialized : col.lc_materialized ≡ []

pub Parses-advance_pos : (bs : List ℕ) → Parses (advance_pos (length bs)) tt bs
unfolding Parses advance_pos checked_add
Parses-advance_pos bs buf rest pos at =
    ground (arith, length_at buf pos bs rest at.inside at.here, at.small)

Parses-advance : (n : ℕ) (bs : List ℕ) → length bs ≡ n → Parses (advance n) tt bs
unfolding advance
Parses-advance n bs e = subst (λ m. Parses (advance_pos m) tt bs) e (Parses-advance_pos bs)

Parses-skip_block_info :
    (fuel : ℕ) → Parses (skip_block_info (suc (suc (suc fuel)))) tt block_info_bytes
unfolding skip_block_info block_info_bytes
Parses-skip_block_info fuel =
    Parses-bind parse_varint _ 1 tt (write_varint 1) _ (Parses-parse_varint 1 (omega arith)) (
      Parses-bind (advance 1) _ tt tt (0 ∷ []) _ (Parses-advance 1 (0 ∷ []) refl) (
        Parses-bind parse_varint _ 2 tt (write_varint 2) _ (Parses-parse_varint 2 (omega arith)) (
          Parses-bind (advance 4) _ tt tt (to_le_bytes 4 (2 ^ 32 - 1)) _
            (Parses-advance 4 _ (length-to_le_bytes 4 (2 ^ 32 - 1)))
            (Parses-mapped parse_varint _ 0 tt (write_varint 0)
              (Parses-parse_varint 0 (omega arith)) (Parses-pure tt)))))

checked_count-fits :
    (n limit : ℕ) (what : String) → n ≤ limit → limit < 2 ^ 64 → checked_count n what limit ≡ ok n
unfolding checked_count usize_try_from
checked_count-fits n limit what h small = ground arith

Parses-count_of :
    (what : String) (limit n : ℕ)
    → n ≤ limit
    → limit < 2 ^ 64
    → Parses (count_of what limit) n (write_varint n)
unfolding count_of
Parses-count_of what limit n h small =
    Parses-mapped parse_varint _ n n (write_varint n) (Parses-parse_varint n (omega arith))
      (Parses-lift _ n (ap (map_err protocol) (checked_count-fits n limit what h small)))

module _ (fuel rows : ℕ) (col : ColumnInfo) (fits : ColumnFits fuel rows col) where
  open fits use {
    ct, name_utf8, name_short, type_utf8, type_short, typed, no_dictionary, no_json, no_nested_json,
    whole, unmaterialized,
  }

  start_here : (buf : List ℕ) (pos : ℕ) → materialized_column_data_start buf pos ct rows ≡ ok pos
  unfolding materialized_column_data_start
  start_here buf pos = ground (arith, no_json, no_nested_json)

  Parses-plain : Parses (plain_column_data (skipper fuel) ct rows) col.data_bytes col.data_bytes
  unfolding Parses plain_column_data data_behind data_between
  Parses-plain buf rest pos at =
      rw (whole buf rest pos at, start_here buf pos, slice_at buf pos col.data_bytes rest at.here)
        refl

  Parses-parse_column_data :
      Parses (parse_column_data (skipper fuel) ct rows) col.data_bytes col.data_bytes
  unfolding parse_column_data
  Parses-parse_column_data = rw (no_dictionary, parse_column_data) Parses-plain

  -- What the loop pushes.
  read_back : ColumnInfo
  read_back = record {
    name = col.name;
    type_name = col.type_name;
    data_bytes = col.data_bytes;
    lc_materialized = [];
  }

  read_back-same : read_back ≡ col
  unfolding read_back
  read_back-same =
      ap
        (λ (m : List ℕ). record {
          name = col.name;
          type_name = col.type_name;
          data_bytes = col.data_bytes;
          lc_materialized = m;
        })
        (sym unmaterialized)

  Parses-parse_column : Parses (parse_column (skipper fuel) bad_type rows) col (write_column col)
  unfolding parse_column write_column bad_type read_back
  Parses-parse_column =
      Parses-bind parse_string _ col.name col (write_string col.name) _
        (Parses-parse_string col.name name_short name_utf8)
        (Parses-bind parse_string _ col.type_name col (write_string col.type_name) _
          (Parses-parse_string col.type_name type_short type_utf8)
          (Parses-bind (parse_bytes 1) _ (0 ∷ []) col (0 ∷ []) _ (Parses-parse_bytes (0 ∷ [])) (
            Parses-checked _ _ ct col col.data_bytes (Parses-lift _ ct (ap (map_err _) typed)) (
              Parses-mapped _ _ col.data_bytes col col.data_bytes Parses-parse_column_data (
                subst (λ c. Parses (pure read_back) c []) read_back-same
                  (Parses-pure read_back))))))

all_bytes-write_columns :
    (body : Cursor ColumnInfo) (cols : List ColumnInfo)
    → all_bytes body write_column cols ≡ write_columns cols
unfolding all_bytes write_columns
all_bytes-write_columns body [] = refl
all_bytes-write_columns body (col ∷ cols) =
    ap (λ (bs : List ℕ). write_column col ++ bs) (all_bytes-write_columns body cols)

All-parse_column :
    (fuel rows : ℕ) (cols : List ColumnInfo)
    → All (ColumnFits fuel rows) cols
    → All (λ col. Parses (parse_column (skipper fuel) bad_type rows) col (write_column col)) cols
All-parse_column fuel rows [] h = tt
All-parse_column fuel rows (col ∷ cols) h =
    (Parses-parse_column fuel rows col h.0, All-parse_column fuel rows cols h.1)

pub Parses-parse_block_body :
    (fuel : ℕ) (block : Block)
    → 2 < fuel
    → length block.columns ≤ max_block_columns
    → block.rows ≤ max_block_rows
    → All (ColumnFits fuel block.rows) block.columns
    → Parses (parse_block_body fuel) block (write_block block)
unfolding parse_block_body block_body_with write_block
Parses-parse_block_body zero block h hc hr fits = absurd (omega arith)
Parses-parse_block_body (suc zero) block h hc hr fits = absurd (omega arith)
Parses-parse_block_body (suc (suc zero)) block h hc hr fits = absurd (omega arith)
Parses-parse_block_body (suc (suc (suc fuel))) block h hc hr fits =
    Parses-bind _ _ tt block block_info_bytes _ (Parses-skip_block_info fuel) (
      Parses-bind _ _ (length block.columns) block (write_varint (length block.columns)) _
        (Parses-count_of "block column" max_block_columns (length block.columns) hc (omega arith))
        (Parses-bind _ _ block.rows block (write_varint block.rows) _
          (Parses-count_of "block row" max_block_rows block.rows hr (omega arith))
          (Parses-mapped _ _ block.columns block (write_columns block.columns)
            (subst (λ bs. Parses (collect (length block.columns) body) block.columns bs)
              (all_bytes-write_columns body block.columns)
              (Parses-collect body write_column block.columns
                (All-parse_column (suc (suc (suc fuel))) block.rows block.columns fits)))
            (Parses-pure block))))
  where
    body : Cursor ColumnInfo
    body = parse_column (skipper (suc (suc (suc fuel)))) bad_type block.rows
