-- ===== src/Response/Ends/Parts.antt =====
-- The parsers of sync/protocol/response.rs and response_packets.rs without columns return.
use st_clickhouse_lib.Common.{
  ℕ, zero, suc, ◌+◌, ◌-◌, ◌≤◌, ◌<◌, ◌≡◌, List, String, Bool, true, false, get_elem?,
  get_elem?_within, bit_and, ltb, ◌==◌, if◌then◌else◌, arith, Option-cases, inl, inr, sym, ◌∙◌,
}
use st_clickhouse_lib.Error.{Error}
use st_clickhouse_lib.Limits.Caps.{checked_add}
use st_clickhouse_lib.Wire.Cursor.{Outcome, done, fail}
use st_clickhouse_lib.Wire.Parse.{
  parse_varint, parse_varint_loop, parse_string, parse_utf8, parse_i32, overflows, add_group,
  varint_overflow,
}
use st_clickhouse_lib.Wire.RoundTrip.{parse_varint_loop-some}
use st_clickhouse_lib.Wire.Agreement.{parse_varint_loop-none}
use st_clickhouse_lib.Wire.Reads.{Within}
use st_clickhouse_lib.Wire.Bounds.{varint_Within, Reads-parse_utf8, Reads-parse_i32}
use st_clickhouse_lib.Wire.Ends.{
  Ends, Any, NeverStuck, Takes, Ends-Reads, Ends-Any, Ends-raise, Ends-bind_taken, Ends-if,
  Ends-narrow, Ends-then, ends_rules, Ends-repeat,
}
use st_clickhouse_lib.Wire.Takes.{done-injective_end}
use st_clickhouse_lib.Skip.Ends.Parts.{
  Ends-parse_varint, Ends-parse_bytes, Ends-parse_string_bytes, Ends-advance_pos,
}
use st_clickhouse_lib.Response.Blocks.{skip_block_info, count_of}
use st_clickhouse_lib.Response.Exceptions.{parse_level, exception_levels, parse_exception_chain}
use st_clickhouse_lib.Response.Skips.{
  skip_varint, skip_byte, skip_text, parse_u64_le, skip_u64, advance, skip_progress,
  skip_profile_info, skip_part_uuids, skip_merge_tree_part_info, skip_mark_ranges,
  skip_part_description, skip_ranges_in_data_parts_description, skip_parallel_read_announcement,
}

round_taken :
    (a b c : Bool) (x y : Error) (v w p : ℕ) (next : Outcome ℕ) (buf : List ℕ) (pos : ℕ)
    → Within buf (pos + 1) next
    → (if a
        then fail x (pos + 1)
        else if b
        then fail y (pos + 1)
        else if c
        then done v (pos + 1)
        else next)
      ≡ done w p
    → pos + 1 ≤ p
round_taken true b c x y v w p next buf pos h e = cc
round_taken false true c x y v w p next buf pos h e = cc
round_taken false false true x y v w p next buf pos h e = omega (arith, done-injective_end e)
round_taken false false false x y v w p next buf pos h e = (rw e at h).0

pub Takes-parse_varint : Takes 1 parse_varint
unfolding Takes parse_varint
Takes-parse_varint buf pos v p e = elim (Option-cases (get_elem? buf pos)) [
  | inl gone ↦
      let failed = parse_varint_loop-none 10 0 0 buf pos gone in absurd (clash (sym failed ∙ e))
  | inr (byte, there) ↦
      let acc = add_group 0 byte 0 in
      let next = parse_varint_loop 10 acc 7 buf (pos + 1) in
      round_taken (ltb 63 0) (overflows byte 0) (bit_and byte 0x80 == 0) varint_overflow
        varint_overflow acc v p next buf pos
        (varint_Within 10 acc 7 buf (pos + 1) (omega (arith, get_elem?_within buf pos byte there)))
        (sym (parse_varint_loop-some 10 0 0 buf pos byte there) ∙ e)
]
  where
    clash : {x : Error} {q : ℕ} → ¬ (Path (Outcome ℕ) (fail x q) (done v p))
    clash h = cc

Ends-parse_utf8 : (room n : ℕ) → Ends room Any (parse_utf8 n)
unfolding NeverStuck parse_utf8 checked_add
Ends-parse_utf8 room n =
    Ends-Reads room (parse_utf8 n) (Reads-parse_utf8 n) (λ buf pos h e. ground arith)

pub Ends-parse_string : (room : ℕ) → Ends room Any parse_string
unfolding parse_string
Ends-parse_string room = search (ends_rules, Ends-parse_varint, Ends-parse_utf8)

pub Ends-parse_i32 : (room : ℕ) → Ends room Any parse_i32
unfolding NeverStuck parse_i32 checked_add
Ends-parse_i32 room = Ends-Reads room parse_i32 Reads-parse_i32 (λ buf pos h e. ground arith)

pub Ends-advance : (room n : ℕ) → Ends room Any (advance n)
unfolding Ends advance checked_add
Ends-advance room n buf pos inside few = ground arith

pub ruleset wire_ends = (
  ends_rules, Ends-repeat, Ends-parse_varint, Ends-parse_bytes, Ends-parse_string_bytes,
  Ends-parse_string, Ends-parse_i32, Ends-advance_pos, Ends-advance,
)

-- A round of the loop takes a byte, so that more rounds than bytes are enough.
pub Ends-skip_block_info : (room fuel : ℕ) → room < fuel → Ends room Any (skip_block_info fuel)
unfolding skip_block_info
Ends-skip_block_info room zero h = absurd (omega arith)
Ends-skip_block_info room (suc fuel) h =
    Ends-bind_taken Any Any 1 room parse_varint _ Takes-parse_varint (Ends-parse_varint room)
      (λ some_room d u.
        let rest : Ends (room - 1) Any (skip_block_info fuel) =
          Ends-skip_block_info (room - 1) fuel (omega arith) in
        search (wire_ends, rest) depth 12)

pub Ends-count_of : (room : ℕ) (what : String) (limit : ℕ) → Ends room Any (count_of what limit)
unfolding count_of
Ends-count_of room what limit = search wire_ends

-- The exceptions of a chain.
Ends-parse_level : (room : ℕ) → Ends room Any parse_level
unfolding parse_level
Ends-parse_level room = search wire_ends

Ends-exception_levels : (room left : ℕ) → Ends room Any (exception_levels left)
unfolding exception_levels
Ends-exception_levels room zero = search wire_ends
Ends-exception_levels room (suc left) =
    search (wire_ends, Ends-parse_level, Ends-exception_levels room left)

pub Ends-parse_exception_chain : (room : ℕ) → Ends room Any parse_exception_chain
unfolding parse_exception_chain
Ends-parse_exception_chain room = search (wire_ends, Ends-exception_levels)

-- The packets that are skipped.
module _ (room : ℕ) where
  Ends-skip_varint : Ends room Any skip_varint
  unfolding skip_varint
  Ends-skip_varint = search wire_ends

  Ends-skip_byte : Ends room Any skip_byte
  unfolding skip_byte
  Ends-skip_byte = search wire_ends

  pub Ends-skip_text : Ends room Any skip_text
  unfolding skip_text
  Ends-skip_text = search wire_ends

  Ends-parse_u64_le : Ends room Any parse_u64_le
  unfolding parse_u64_le
  Ends-parse_u64_le = search wire_ends

  Ends-skip_u64 : Ends room Any skip_u64
  unfolding skip_u64
  Ends-skip_u64 = search (wire_ends, Ends-parse_u64_le)

ruleset field_ends =
    (wire_ends, Ends-skip_varint, Ends-skip_byte, Ends-skip_text, Ends-parse_u64_le, Ends-skip_u64)

module _ (room : ℕ) where
  pub Ends-skip_progress : (revision : ℕ) → Ends room Any (skip_progress revision)
  unfolding skip_progress
  Ends-skip_progress revision = search field_ends depth 12

  pub Ends-skip_profile_info : (revision : ℕ) → Ends room Any (skip_profile_info revision)
  unfolding skip_profile_info
  Ends-skip_profile_info revision = search field_ends depth 12

  pub Ends-skip_part_uuids : Ends room Any skip_part_uuids
  unfolding skip_part_uuids
  Ends-skip_part_uuids = search field_ends

  Ends-skip_merge_tree_part_info : Ends room Any skip_merge_tree_part_info
  unfolding skip_merge_tree_part_info
  Ends-skip_merge_tree_part_info = search field_ends depth 12

  Ends-skip_mark_ranges : Ends room Any skip_mark_ranges
  unfolding skip_mark_ranges
  Ends-skip_mark_ranges = search field_ends

  Ends-skip_part_description : (version : ℕ) → Ends room Any (skip_part_description version)
  unfolding skip_part_description
  Ends-skip_part_description version =
      search (field_ends, Ends-skip_merge_tree_part_info, Ends-skip_mark_ranges) depth 12

  Ends-skip_ranges : (version : ℕ) → Ends room Any (skip_ranges_in_data_parts_description version)
  unfolding skip_ranges_in_data_parts_description
  Ends-skip_ranges version = search (field_ends, Ends-skip_part_description)

  pub Ends-skip_announcement : Ends room Any skip_parallel_read_announcement
  unfolding skip_parallel_read_announcement
  Ends-skip_announcement = search (field_ends, Ends-skip_ranges) depth 14
