-- ===== src/Block/Capacity.antt =====
-- The capacities of shared/block_writer.rs are the lengths of what is written.
use st_clickhouse_lib.Common.{
  ℕ, ◌+◌, ◌^◌, ◌<◌, ◌≡◌, List, [], ◌∷◌, ◌++◌, length, length-append, All, arith, refl,
}
use st_clickhouse_lib.Common.Bytes.{to_le_bytes}
use st_clickhouse_lib.Wire.Write.{write_varint, write_string, varint_len}
use st_clickhouse_lib.Wire.Encoding.{write_varint_shape}
use st_clickhouse_lib.Block.{ColumnInfo, Block, sum_columns}
use st_clickhouse_lib.Block.Write.{
  column_capacity, block_capacity, data_packet_capacity, block_info_bytes, write_column,
  write_columns, write_block, write_data_packet,
}

varint_len-length : (v : ℕ) → v < 2 ^ 64 → varint_len v ≡ length (write_varint v)
varint_len-length v h = (write_varint_shape v [] h).3

-- A `usize` counts its bytes.
abbrev pub NamesFit : ColumnInfo → Type 0
NamesFit col = (length col.name < 2 ^ 64) × (length col.type_name < 2 ^ 64)

length-write_string :
    (s : List ℕ) → length s < 2 ^ 64 → length (write_string s) ≡ varint_len (length s) + length s
unfolding write_string
length-write_string s h =
    omega (arith, varint_len-length (length s) h, length-append (write_varint (length s)) s)

length-write_column :
    (col : ColumnInfo) → NamesFit col → length (write_column col) ≡ column_capacity col
unfolding write_column column_capacity
length-write_column col h = omega (
  arith,
  length-write_string col.name h.0,
  length-write_string col.type_name h.1,
  length-append (write_string col.name) (write_string col.type_name ++ (0 ∷ col.data_bytes)),
  length-append (write_string col.type_name) (0 ∷ col.data_bytes),
)

length-write_columns :
    (cols : List ColumnInfo)
    → All NamesFit cols
    → length (write_columns cols) ≡ sum_columns column_capacity cols
unfolding write_columns sum_columns
length-write_columns [] h = refl
length-write_columns (col ∷ cols) h = omega (
  arith,
  length-append (write_column col) (write_columns cols),
  length-write_column col h.0,
  length-write_columns cols h.1,
)

length-block_info_bytes :
    length block_info_bytes ≡ varint_len 1 + 1 + varint_len 2 + 4 + varint_len 0
unfolding block_info_bytes write_varint varint_len to_le_bytes
length-block_info_bytes = refl

-- Where the block has fewer than 2^64 columns and rows, and its names and types and the table's name
-- are shorter than 2^64 bytes: the capacity that the client reserves for a block is exactly the number
-- of bytes of the written block, and the capacity for a Data packet is exactly the number of bytes of
-- the written packet.
pub data_packet_capacity-length :
    (table_name : List ℕ) (block : Block)
    → length table_name < 2 ^ 64
    → length block.columns < 2 ^ 64
    → block.rows < 2 ^ 64
    → All NamesFit block.columns
    → (block_capacity block ≡ length (write_block block))
      × (data_packet_capacity table_name block ≡ length (write_data_packet table_name block))
unfolding block_capacity data_packet_capacity write_block write_data_packet
data_packet_capacity-length table_name block ht hc hr hn =
    (whole, omega (arith, whole, packet, length-write_string table_name ht))
  where
    cols : List ℕ
    cols = write_columns block.columns

    whole : block_capacity block ≡ length (write_block block)
    whole = omega (
      arith,
      length-block_info_bytes,
      varint_len-length (length block.columns) hc,
      varint_len-length block.rows hr,
      length-write_columns block.columns hn,
      length-append block_info_bytes
          (write_varint (length block.columns) ++ (write_varint block.rows ++ cols)),
      length-append (write_varint (length block.columns)) (write_varint block.rows ++ cols),
      length-append (write_varint block.rows) cols,
    )

    packet :
        length (write_data_packet table_name block)
        ≡ varint_len 2 + length (write_string table_name) + length (write_block block)
    packet = omega (
      arith,
      varint_len-length 2 (omega arith),
      length-append (write_varint 2) (write_string table_name ++ write_block block),
      length-append (write_string table_name) (write_block block),
    )
