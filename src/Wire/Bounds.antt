-- ===== src/Wire/Bounds.antt =====
-- The parsers of shared/wire.rs stay inside their buffer and look at nothing behind what they read.
use st_clickhouse_lib.Common.{
  ℕ, zero, suc, ◌+◌, ◌≤◌, ◌<◌, refl, List, ◌++◌, Bool, true, false, length, length-append,
  get_elem?, get_elem?-append, get_elem?_within, bit_and, ltb, ◌==◌, if◌then◌else◌, arith,
  Option-cases, inl, inr, ◌∙◌,
}
use st_clickhouse_lib.Error.{Error}
use st_clickhouse_lib.Limits.Caps.{checked_add}
use st_clickhouse_lib.Wire.Cursor.{Outcome, done, fail}
use st_clickhouse_lib.Wire.Parse.{
  parse_varint_loop, parse_varint, parse_bytes, parse_string_bytes, parse_string, parse_utf8,
  parse_i32, add_group, overflows, varint_overflow,
}
use st_clickhouse_lib.Wire.RoundTrip.{parse_varint_loop-some}
use st_clickhouse_lib.Wire.Agreement.{parse_varint_loop-none}
use st_clickhouse_lib.Wire.Reads.{Reads, Within, Extends, slice-append, Within-widen, reads_rules}

-- The three tests of a round, whatever they say.
round_Within :
    (a b c : Bool) (x y : Error) (v : ℕ) (next : Outcome ℕ) (buf : List ℕ) (pos : ℕ)
    → pos < length buf
    → Within buf (pos + 1) next
    → Within buf pos (
        if a
        then fail x (pos + 1)
        else if b
        then fail y (pos + 1)
        else if c
        then done v (pos + 1)
        else next)
round_Within true b c x y v next buf pos h w = omega arith
round_Within false true c x y v next buf pos h w = omega arith
round_Within false false true x y v next buf pos h w = omega arith
round_Within false false false x y v next buf pos h w =
    Within-widen next buf pos (pos + 1) (omega arith) w

round_Extends :
    (a b c : Bool) (x y : Error) (v p : ℕ) (next next' : Outcome ℕ)
    → Extends next next'
    → Extends
        (if a then fail x p else if b then fail y p else if c then done v p else next)
        (if a then fail x p else if b then fail y p else if c then done v p else next')
round_Extends true b c x y v p next next' h = tt
round_Extends false true c x y v p next next' h = tt
round_Extends false false true x y v p next next' h = refl
round_Extends false false false x y v p next next' h = h

pub varint_Within :
    (fuel r shift : ℕ) (buf : List ℕ) (pos : ℕ)
    → pos ≤ length buf
    → Within buf pos (parse_varint_loop fuel r shift buf pos)
varint_Within zero r shift buf pos h = unfold parse_varint_loop in tt
varint_Within (suc fuel) r shift buf pos h = elim (Option-cases (get_elem? buf pos)) [
  | inl e ↦ rw (parse_varint_loop-none fuel r shift buf pos e) (omega arith)
  | inr (byte, e) ↦
      let inside = get_elem?_within buf pos byte e in
      rw (parse_varint_loop-some fuel r shift buf pos byte e) (
        round_Within (ltb 63 shift) (overflows byte shift) (bit_and byte 0x80 == 0) varint_overflow
          varint_overflow (add_group r byte shift)
          (parse_varint_loop fuel (add_group r byte shift) (shift + 7) buf (pos + 1)) buf pos inside
          (varint_Within fuel (add_group r byte shift) (shift + 7) buf (pos + 1) (omega arith)))
]

varint_Extends :
    (fuel r shift : ℕ) (buf more : List ℕ) (pos : ℕ)
    → Extends
        (parse_varint_loop fuel r shift buf pos)
        (parse_varint_loop fuel r shift (buf ++ more) pos)
varint_Extends zero r shift buf more pos = unfold parse_varint_loop in tt
varint_Extends (suc fuel) r shift buf more pos = elim (Option-cases (get_elem? buf pos)) [
  | inl e ↦ rw (parse_varint_loop-none fuel r shift buf pos e) tt
  | inr (byte, e) ↦
      let same = get_elem?-append buf more pos (get_elem?_within buf pos byte e) in
      let r' = add_group r byte shift in
      rw
        (
          parse_varint_loop-some fuel r shift buf pos byte e,
          parse_varint_loop-some fuel r shift (buf ++ more) pos byte (same ∙ e),
        )
        (round_Extends (ltb 63 shift) (overflows byte shift) (bit_and byte 0x80 == 0)
          varint_overflow varint_overflow r' (pos + 1)
          (parse_varint_loop fuel r' (shift + 7) buf (pos + 1))
          (parse_varint_loop fuel r' (shift + 7) (buf ++ more) (pos + 1))
          (varint_Extends fuel r' (shift + 7) buf more (pos + 1)))
]

pub Reads-parse_varint : Reads parse_varint
unfolding parse_varint
Reads-parse_varint = record {
  within = λ buf pos h. varint_Within 11 0 0 buf pos h;
  extends = λ buf more pos h. varint_Extends 11 0 0 buf more pos;
}

pub Reads-parse_bytes : (n : ℕ) → Reads (parse_bytes n)
unfolding parse_bytes checked_add
Reads-parse_bytes n = record {
  within = λ buf pos h. ground arith;
  extends =
      λ buf more pos h. ground (arith, length-append buf more, slice-append buf more pos (pos + n));
}

pub Reads-parse_utf8 : (n : ℕ) → Reads (parse_utf8 n)
unfolding parse_utf8 checked_add
Reads-parse_utf8 n = record {
  within = λ buf pos h. ground arith;
  extends =
      λ buf more pos h. ground (arith, length-append buf more, slice-append buf more pos (pos + n));
}

pub Reads-parse_i32 : Reads parse_i32
unfolding parse_i32 checked_add
Reads-parse_i32 = record {
  within = λ buf pos h. ground arith;
  extends =
      λ buf more pos h. ground (arith, length-append buf more, slice-append buf more pos (pos + 4));
}

pub Reads-parse_string_bytes : Reads parse_string_bytes
unfolding parse_string_bytes
Reads-parse_string_bytes = search (reads_rules, Reads-parse_varint, Reads-parse_bytes)

pub Reads-parse_string : Reads parse_string
unfolding parse_string
Reads-parse_string = search (reads_rules, Reads-parse_varint, Reads-parse_utf8)

pub ruleset wire_reads = (
  reads_rules, Reads-parse_varint, Reads-parse_bytes, Reads-parse_string_bytes, Reads-parse_string,
)
