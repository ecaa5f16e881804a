-- ===== src/Skip/Ends/Parts.antt =====
-- The parts of shared/skip_column.rs that recur into no column always return.
use st_clickhouse_lib.Common.{ℕ, ◌≡◌, List, String, Result, arith, drop}
use st_clickhouse_lib.Error.{Error}
use st_clickhouse_lib.Limits.Caps.{checked_add}
use st_clickhouse_lib.Wire.Cursor.{Outcome, done, fail, stuck, ◌>>=◌}
use st_clickhouse_lib.Wire.Parse.{parse_varint, parse_bytes, parse_string_bytes}
use st_clickhouse_lib.Wire.Read.{read_varint}
use st_clickhouse_lib.Wire.Agreement.{Agrees, parse_varint-read_varint}
use st_clickhouse_lib.Wire.Bounds.{Reads-parse_varint, Reads-parse_bytes}
use st_clickhouse_lib.Wire.Ends.{
  Ends, Any, NeverStuck, Takes, Ends-Reads, ends_rules, Ends-repeat, Ends-collect, Ends-bind_taken,
}
use st_clickhouse_lib.Skip.Primitives.{
  advance_pos, advance_rows, read_u64_le, skip_string_rows, skip_offsets, offsets_within,
  read_type_name, read_type_names,
}
use st_clickhouse_lib.Skip.Body.{take_bytes}
use st_clickhouse_lib.Skip.Column.{skip_materialized_json}
use st_clickhouse_lib.Skip.Bounds.Parts.{Reads-advance_pos, Reads-take_bytes, Reads-offsets_within}

agreed :
    (buf : List ℕ) (o : Outcome ℕ) (r : Result (ℕ × List ℕ) Error) → Agrees buf o r → ¬ (o ≡ stuck)
agreed buf (done v p) r a e = cc
agreed buf (fail x p) r a e = cc
agreed buf stuck r a e = a

pub Ends-parse_varint : (room : ℕ) → Ends room Any parse_varint
unfolding NeverStuck
Ends-parse_varint room = Ends-Reads room parse_varint Reads-parse_varint λ buf pos h.
    agreed buf (parse_varint buf pos) (read_varint (drop pos buf))
      (parse_varint-read_varint buf pos h)

pub Ends-parse_bytes : (room n : ℕ) → Ends room Any (parse_bytes n)
unfolding NeverStuck parse_bytes checked_add
Ends-parse_bytes room n =
    Ends-Reads room (parse_bytes n) (Reads-parse_bytes n) (λ buf pos h e. ground arith)

pub Ends-advance_pos : (room n : ℕ) → Ends room Any (advance_pos n)
unfolding NeverStuck advance_pos checked_add
Ends-advance_pos room n =
    Ends-Reads room (advance_pos n) (Reads-advance_pos n) (λ buf pos h e. ground arith)

pub Ends-take_bytes : (room n : ℕ) → Ends room Any (take_bytes n)
unfolding NeverStuck take_bytes advance_pos checked_add ◌>>=◌
Ends-take_bytes room n =
    Ends-Reads room (take_bytes n) (Reads-take_bytes n) (λ buf pos h e. ground arith)

pub Ends-offsets_within :
    (room rows n : ℕ) (name : String) → Ends room Any (offsets_within rows n name)
unfolding NeverStuck offsets_within checked_add
Ends-offsets_within room rows n name =
    Ends-Reads room (offsets_within rows n name) (Reads-offsets_within rows n name)
      (λ buf pos h e. ground arith)

pub Ends-parse_string_bytes : (room : ℕ) → Ends room Any parse_string_bytes
unfolding parse_string_bytes
Ends-parse_string_bytes room = search (ends_rules, Ends-parse_varint, Ends-parse_bytes)

pub Ends-advance_rows : (room rows width : ℕ) → Ends room Any (advance_rows rows width)
unfolding advance_rows
Ends-advance_rows room rows width = search (ends_rules, Ends-advance_pos)

pub Ends-read_u64_le : (room : ℕ) → Ends room Any read_u64_le
unfolding read_u64_le
Ends-read_u64_le room = search (ends_rules, Ends-parse_bytes)

pub Takes-read_u64_le : Takes 8 read_u64_le
unfolding Takes read_u64_le parse_bytes checked_add ◌>>=◌
Takes-read_u64_le buf pos a p e = ground arith

pub Ends-skip_string_rows :
    (room rows : ℕ) (name : String) → Ends room Any (skip_string_rows rows name)
unfolding skip_string_rows
Ends-skip_string_rows room rows name =
    search (Ends-repeat, ends_rules, Ends-parse_varint, Ends-advance_pos)

pub Ends-skip_offsets : (room rows : ℕ) (name : String) → Ends room Any (skip_offsets rows name)
unfolding skip_offsets
Ends-skip_offsets room rows name = search (ends_rules, Ends-offsets_within)

Ends-read_type_name : (room : ℕ) → Ends room Any read_type_name
unfolding read_type_name
Ends-read_type_name room = search (ends_rules, Ends-parse_string_bytes)

pub Ends-read_type_names : (room : ℕ) (name : String) → Ends room Any (read_type_names name)
unfolding read_type_names
Ends-read_type_names room name =
    search (Ends-collect, Ends-read_type_name, ends_rules, Ends-parse_varint)

pub Ends-skip_materialized_json : (room rows : ℕ) → Ends room Any (skip_materialized_json rows)
unfolding skip_materialized_json
Ends-skip_materialized_json room rows = search (ends_rules, Ends-read_u64_le, Ends-skip_string_rows)

pub ruleset part_ends = (
  ends_rules, Ends-repeat, Ends-parse_varint, Ends-parse_bytes, Ends-parse_string_bytes,
  Ends-advance_pos, Ends-take_bytes, Ends-advance_rows, Ends-read_u64_le, Ends-skip_string_rows,
  Ends-skip_offsets, Ends-read_type_names, Ends-skip_materialized_json,
)
