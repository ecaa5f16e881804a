-- ===== src/Skip/Bounds/Parts.antt =====
-- The parts of shared/skip_column.rs that recur into no column.
use st_clickhouse_lib.Common.{ℕ, ◌+◌, String, length-append, arith}
use st_clickhouse_lib.Limits.Caps.{checked_add}
use st_clickhouse_lib.Wire.Cursor.{◌>>=◌}
use st_clickhouse_lib.Wire.Reads.{
  Reads, Within, Extends, slice-append, reads_rules, Reads-repeat, Reads-collect,
}
use st_clickhouse_lib.Wire.Bounds.{wire_reads}
use st_clickhouse_lib.Skip.Primitives.{
  advance_pos, advance_rows, read_u64_le, skip_string_rows, skip_offsets, offsets_within,
  read_type_name, read_type_names,
}
use st_clickhouse_lib.Skip.Body.{take_bytes}
use st_clickhouse_lib.Skip.Column.{skip_materialized_json}

pub Reads-advance_pos : (len : ℕ) → Reads (advance_pos len)
unfolding advance_pos checked_add
Reads-advance_pos len = record {
  within = λ buf pos h. ground arith;
  extends = λ buf more pos h. ground (arith, length-append buf more);
}

pub Reads-take_bytes : (len : ℕ) → Reads (take_bytes len)
unfolding take_bytes advance_pos checked_add ◌>>=◌
Reads-take_bytes len = record {
  within = λ buf pos h. ground arith;
  extends = λ buf more pos h.
      ground (arith, length-append buf more, slice-append buf more pos (pos + len));
}

pub Reads-advance_rows : (rows width : ℕ) → Reads (advance_rows rows width)
unfolding advance_rows
Reads-advance_rows rows width = search (reads_rules, Reads-advance_pos)

pub Reads-read_u64_le : Reads read_u64_le
unfolding read_u64_le
Reads-read_u64_le = search wire_reads

pub Reads-skip_string_rows : (rows : ℕ) (name : String) → Reads (skip_string_rows rows name)
unfolding skip_string_rows
Reads-skip_string_rows rows name = search (Reads-repeat, wire_reads, Reads-advance_pos)

-- The end of the offsets, when they are well formed.
pub Reads-offsets_within : (rows len : ℕ) (name : String) → Reads (offsets_within rows len name)
unfolding offsets_within checked_add
Reads-offsets_within rows len name = record {
  within = λ buf pos h. ground arith;
  extends = λ buf more pos h.
      ground (arith, length-append buf more, slice-append buf more pos (pos + len));
}

pub Reads-skip_offsets : (rows : ℕ) (name : String) → Reads (skip_offsets rows name)
unfolding skip_offsets
Reads-skip_offsets rows name = search (reads_rules, Reads-offsets_within)

Reads-read_type_name : Reads read_type_name
unfolding read_type_name
Reads-read_type_name = search wire_reads

pub Reads-read_type_names : (name : String) → Reads (read_type_names name)
unfolding read_type_names
Reads-read_type_names name = search (Reads-collect, Reads-read_type_name, wire_reads)

pub Reads-skip_materialized_json : (rows : ℕ) → Reads (skip_materialized_json rows)
unfolding skip_materialized_json
Reads-skip_materialized_json rows = search (reads_rules, Reads-read_u64_le, Reads-skip_string_rows)

pub ruleset part_reads = (
  wire_reads, Reads-repeat, Reads-advance_pos, Reads-take_bytes, Reads-advance_rows,
  Reads-read_u64_le, Reads-skip_string_rows, Reads-skip_offsets, Reads-read_type_names,
  Reads-skip_materialized_json,
)
