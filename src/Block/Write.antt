-- ===== src/Block/Write.antt =====
-- shared/block_writer.rs: a block in the native format, and the Data packets around it.
use st_clickhouse_lib.Common.{ℕ, ◌+◌, ◌-◌, ◌^◌, List, [], ◌∷◌, ◌++◌, Result, ok, ◌>>=◌, length}
use st_clickhouse_lib.Common.Bytes.{to_le_bytes}
use st_clickhouse_lib.Error.{Error}
use st_clickhouse_lib.Wire.Write.{write_varint, write_string, varint_len}
use st_clickhouse_lib.Compression.Frame.{Codecs, CompressionMethod, encode_frame}
use st_clickhouse_lib.Block.{ColumnInfo, Block, sum_columns}

-- `size_of::<i32>()` is 4.
unfoldable pub column_capacity : ColumnInfo → ℕ
unfolding varint_len
column_capacity col =
    varint_len (length col.name)
    + length col.name
    + varint_len (length col.type_name)
    + length col.type_name
    + 1
    + length col.data_bytes

unfoldable pub block_capacity : Block → ℕ
unfolding varint_len sum_columns column_capacity
block_capacity block =
    varint_len 1
    + 1
    + varint_len 2
    + 4
    + varint_len 0
    + varint_len (length block.columns)
    + varint_len block.rows
    + sum_columns column_capacity block.columns

unfoldable pub data_packet_capacity : List ℕ → Block → ℕ
unfolding varint_len block_capacity
data_packet_capacity table_name block =
    varint_len 2 + varint_len (length table_name) + length table_name + block_capacity block

-- The bytes that each writer puts behind those that `buf` holds. `-1i32` is the pattern `2^32 - 1`.
unfoldable pub block_info_bytes : List ℕ
unfolding write_varint to_le_bytes
block_info_bytes =
    write_varint 1
    ++ ((0 ∷ []) ++ (write_varint 2 ++ (to_le_bytes 4 (2 ^ 32 - 1) ++ write_varint 0)))

unfoldable pub write_column : ColumnInfo → List ℕ
unfolding write_string
write_column col =
    write_string col.name ++ (write_string col.type_name ++ ((0 ∷ []) ++ col.data_bytes))

unfoldable pub write_columns : List ColumnInfo → List ℕ
unfolding write_column
write_columns [] = []
write_columns (col ∷ cols) = write_column col ++ write_columns cols

unfoldable pub write_block : Block → List ℕ
unfolding block_info_bytes write_varint write_columns
write_block block =
    block_info_bytes
    ++ (write_varint (length block.columns)
        ++ (write_varint block.rows ++ write_columns block.columns))

unfoldable pub write_data_packet : List ℕ → Block → List ℕ
unfolding write_varint write_string write_block
write_data_packet table_name block =
    write_varint 2 ++ (write_string table_name ++ write_block block)

-- On an error `buf` keeps the header that is already written; the caller drops it.
unfoldable pub write_data_packet_compressed :
    Codecs → List ℕ → Block → CompressionMethod → Result (List ℕ) Error
unfolding write_varint write_string write_block encode_frame
write_data_packet_compressed cs table_name block method = do
  compressed ← encode_frame cs (write_block block) method
  ok (write_varint 2 ++ (write_string table_name ++ compressed))
