-- ===== src/Block.antt =====
-- shared/block.rs: a decoded block and its columns.
-- `Bytes` slices share their buffer with the response; here they are the bytes that they show.
pub mod Write
pub mod Capacity
pub mod Context
use st_clickhouse_lib.Common.{
  ℕ, ◌+◌, List, [], ◌∷◌, Bool, true, false, not, ◌&&◌, Option, none, some, Result, ok, err, ◌>>=◌,
  length, map, if◌then◌else◌, get_elem?,
}
use st_clickhouse_lib.Error.{Error, protocol, message, num, bytes}
use st_clickhouse_lib.Limits.Caps.{ok_or}
use st_clickhouse_lib.TypeParser.Text.{codes, bytes_eq, starts_with}

-- The field `data` of the source is `data_bytes`.
pub record ColumnInfo : Type 0 where
  pub name : List ℕ
  pub type_name : List ℕ
  pub data_bytes : List ℕ
  pub lc_materialized : List ℕ

pub record Block : Type 0 where
  pub columns : List ColumnInfo
  pub rows : ℕ

pub record RawBlock : Type 0 where
  pub table_name : List ℕ
  pub raw_columns : ℕ
  pub raw_rows : ℕ
  pub raw_data : List ℕ

abbrev pub empty : Block
empty = record { columns = []; rows = 0 }

unfoldable pub column_count : Block → ℕ
column_count block = length block.columns

abbrev pub is_empty : List ℕ → Bool
is_empty [] = true
is_empty (b ∷ bs) = false

unfoldable pub column_buf : ColumnInfo → List ℕ
unfolding starts_with
column_buf info =
    if starts_with (codes "LowCardinality(") info.type_name && not (is_empty info.lc_materialized)
    then info.lc_materialized
    else info.data_bytes

unfoldable pub column_bytes : ColumnInfo → ℕ
column_bytes c = length c.data_bytes + length c.lc_materialized

unfoldable pub sum_columns : (ColumnInfo → ℕ) → List ColumnInfo → ℕ
sum_columns size [] = 0
sum_columns size (c ∷ cs) = size c + sum_columns size cs

unfoldable pub payload_bytes : Block → ℕ
unfolding sum_columns column_bytes
payload_bytes block = sum_columns column_bytes block.columns

unfoldable pub raw_payload_bytes : RawBlock → ℕ
raw_payload_bytes block = length block.raw_data

-- A copy of each buffer, where an empty one is a new one.
unfoldable pub column_to_owned : ColumnInfo → ColumnInfo
column_to_owned c = record {
  name = c.name;
  type_name = c.type_name;
  data_bytes = c.data_bytes;
  lc_materialized = if not (is_empty c.lc_materialized) then c.lc_materialized else [];
}

unfoldable pub to_owned : Block → Block
unfolding column_to_owned
to_owned block = record { columns = map column_to_owned block.columns; rows = block.rows }

-- `columns.iter().find(|c| c.name == name)`
unfoldable pub find_column : List ℕ → List ColumnInfo → Option ColumnInfo
unfolding bytes_eq
find_column name [] = none
find_column name (c ∷ cs) =
    let later = find_column name cs in if bytes_eq c.name name then some c else later

-- What a column's type makes of the number of rows and the buffer: `T::read_column` with a new
-- context, or one of the readers by type name.
module _ {A : Type 0} (read_column : ℕ → ColumnInfo → List ℕ → Result A Error) where
  unfoldable pub read_info : Block → ColumnInfo → Result A Error
  unfolding column_buf
  read_info block info = read_column block.rows info (column_buf info)

  unfoldable pub column_by_index : Block → ℕ → Result A Error
  unfolding read_info
  column_by_index block index = do
    info ←
        ok_or (get_elem? block.columns index)
          (protocol (message "column at index {} not found" (num index ∷ [])))
    read_info block info

  unfoldable pub column : Block → List ℕ → Result A Error
  unfolding read_info find_column
  column block name = do
    info ←
        ok_or (find_column name block.columns)
          (protocol (message "column '{}' not found" (bytes name ∷ [])))
    read_info block info

  -- `A` is the data of a `Dynamic` column.
  unfoldable pub dynamic_column : Block → List ℕ → Result A Error
  unfolding read_info find_column bytes_eq
  dynamic_column block name = do
    info ←
        ok_or (find_column name block.columns)
          (protocol (message "column '{}' not found" (bytes name ∷ [])))
    if not (bytes_eq info.type_name (codes "Dynamic"))
        then err (
            protocol (
              message "expected Dynamic column '{}', got {}"
                (bytes name ∷ bytes info.type_name ∷ [])))
        else read_info block info
