-- ===== src/Wire/Agreement.antt =====
-- The buffer parser and the stream reader of shared/wire.rs are two loops; they accept the same
-- varints.
use st_clickhouse_lib.Common.{
  ℕ, zero, suc, ◌+◌, ◌*◌, ◌≤◌, ◌≡◌, refl, List, [], ◌∷◌, Result, ok, err, length, drop, get_elem?,
  get_elem?-drop, drop-suc, length-drop, get_elem?_beyond, bit_and, ltb, leb, ◌==◌, if◌then◌else◌,
  arith, ap, none, false, Bool-cases, inl, inr,
}
use st_clickhouse_lib.Error.{Error, io, unexpected_eof}
use st_clickhouse_lib.Wire.Cursor.{Outcome, done, fail, stuck}
use st_clickhouse_lib.Wire.Parse.{
  parse_varint_loop, parse_varint, add_group, overflows, varint_overflow, varint_truncated,
}
use st_clickhouse_lib.Wire.Read.{read_varint_loop, read_varint}
use st_clickhouse_lib.Wire.RoundTrip.{parse_varint_loop-some}

-- The parser returns a value and a position, and the reader the value and the bytes behind that
-- position; or both fail.
abbrev pub Agrees : List ℕ → Outcome ℕ → Result (ℕ × List ℕ) Error → Type 0
Agrees buf (done v p) r = r ≡ ok (v, drop p buf)
Agrees buf (fail e p) r = (x : Error) × (r ≡ err x)
Agrees buf stuck r = ⊥

pub parse_varint_loop-none :
    (fuel r shift : ℕ) (buf : List ℕ) (pos : ℕ)
    → get_elem? buf pos ≡ none
    → parse_varint_loop (suc fuel) r shift buf pos ≡ fail varint_truncated pos
unfolding parse_varint_loop
parse_varint_loop-none fuel r shift buf pos e = rw (e, parse_varint_loop)

same_guard : (shift : ℕ) → leb 64 shift ≡ ltb 63 shift
same_guard shift = ground arith

-- One round of both loops, where the next rounds agree.
round_Agrees :
    (r shift : ℕ) (buf : List ℕ) (pos byte : ℕ) (src : List ℕ) (next : Outcome ℕ)
    → drop (pos + 1) buf ≡ src
    → (ltb 63 shift ≡ false
        → Agrees buf next (read_varint_loop src (add_group r byte shift) (shift + 7)))
    → Agrees buf
        (if ltb 63 shift
          then fail varint_overflow (pos + 1)
          else if overflows byte shift
          then fail varint_overflow (pos + 1)
          else if bit_and byte 0x80 == 0
          then done (add_group r byte shift) (pos + 1)
          else next)
        (read_varint_loop (byte ∷ src) r shift)
unfolding read_varint_loop
round_Agrees r shift buf pos byte src next at more = elim (Bool-cases (ltb 63 shift)) [
  | inl wide ↦ rw (same_guard, wide) (varint_overflow, refl)
  | inr narrow ↦
      rw (same_guard, narrow)
        (elim (Bool-cases (overflows byte shift)) [
          | inl over ↦ rw over (varint_overflow, refl)
          | inr fits ↦ rw fits (elim (Bool-cases (bit_and byte 0x80 == 0)) [
            | inl last ↦ rw (last, at)
            | inr flagged ↦ rw flagged (more narrow)
          ])
        ])
]

-- `j` rounds are done, so the shift is `7 * j`, and the rounds left reach an eleventh.
loops_Agree :
    (fuel j r shift : ℕ) (buf : List ℕ) (pos : ℕ) (src : List ℕ)
    → fuel + j ≡ 11
    → j ≤ 10
    → shift ≡ 7 * j
    → pos ≤ length buf
    → drop pos buf ≡ src
    → Agrees buf (parse_varint_loop fuel r shift buf pos) (read_varint_loop src r shift)
loops_Agree zero j r shift buf pos src hf hj hs inside at = absurd (omega arith)
loops_Agree (suc fuel) j r shift buf pos [] hf hj hs inside at =
    rw
      (parse_varint_loop-none fuel r shift buf pos
        (get_elem?_beyond buf pos (omega (arith, length-drop pos buf, ap length at))))
      (reader_ends r shift)
  where
    reader_ends : (r shift : ℕ) → (x : Error) × (read_varint_loop [] r shift ≡ err x)
    reader_ends r shift =
        unfold read_varint_loop in
        (elim (Bool-cases (leb 64 shift)) [
          | inl wide ↦ (varint_overflow, rw wide)
          | inr narrow ↦ (io unexpected_eof, rw narrow)
        ])
loops_Agree (suc fuel) j r shift buf pos (byte ∷ src) hf hj hs inside at =
    rw (parse_varint_loop-some fuel r shift buf pos byte (get_elem?-drop buf src pos byte at)) (
      round_Agrees r shift buf pos byte src _ (drop-suc buf src pos byte at) λ narrow.
        loops_Agree fuel (j + 1) (add_group r byte shift) (shift + 7) buf (pos + 1) src
          (omega arith) (ground arith) (omega arith)
          (omega (arith, length-drop pos buf, ap length at)) (drop-suc buf src pos byte at))

-- On any bytes, well formed or not, and from any position inside the buffer: `parse_varint` returns
-- a value or an error within its eleven rounds; where it returns a value, `read_varint` on the rest
-- of the buffer returns the same value and consumes the same bytes; where it fails, so does
-- `read_varint`.
pub parse_varint-read_varint :
    (buf : List ℕ) (pos : ℕ)
    → pos ≤ length buf
    → Agrees buf (parse_varint buf pos) (read_varint (drop pos buf))
unfolding parse_varint read_varint
parse_varint-read_varint buf pos h =
    loops_Agree 11 0 0 0 buf pos (drop pos buf) (omega arith) (omega arith) (omega arith) h refl
