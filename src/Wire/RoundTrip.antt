-- ===== src/Wire/RoundTrip.antt =====
-- Reading back what the writers wrote, at any position of a buffer.
use st_clickhouse_lib.Common.{
  ℕ, zero, suc, ◌+◌, ◌*◌, ◌/◌, ◌%◌, ◌^◌, ◌≤◌, ◌<◌, ◌≡◌, ap, ◌∙◌, List, ◌∷◌, ◌++◌, length, drop,
  drop-append, get_elem?, get_elem?-drop, drop-suc, bit_and, ltb, if◌then◌else◌, some, arith, ◌==◌,
  ltb→lt, Bool-cases, inl, inr, ap₂,
}
use st_clickhouse_lib.Common.Bits.{low_seven, top_bit, bit_or_disjoint}
use st_clickhouse_lib.Wire.Cursor.{done, fail}
use st_clickhouse_lib.Wire.Parse.{
  parse_varint_loop, parse_varint, add_group, varint_overflow, overflows,
}
use st_clickhouse_lib.Wire.Write.{write_varint}
use st_clickhouse_lib.Wire.Encoding.{groups, write_varint-groups}
use native.Mathlib.Nat.{div-add-mod}
use native.Mathlib.Numerals.{towards_suc}

-- `r | (g << shift)` is the sum of the groups read so far and the next one.
add_group_lem :
    (r byte g shift : ℕ)
    → byte < 256
    → g ≡ byte % 128
    → r < 2 ^ shift
    → r + g * 2 ^ shift < 2 ^ 64
    → add_group r byte shift ≡ r + g * 2 ^ shift
add_group_lem r byte g shift hb hg hr fits =
    rw (low_seven byte, ← hg, small) (bit_or_disjoint shift r g hr)
  where
    small : g * 2 ^ shift % 2 ^ 64 ≡ g * 2 ^ shift
    small = omega arith

-- Seven bits further up.
group_above : (shift : ℕ) → 2 ^ (shift + 7) ≡ 2 ^ shift * 128
group_above shift = simp towards_suc (omega arith)

-- A value and its seven lowest bits, wherever they stand.
group_off : (v shift : ℕ) → v / 128 * 2 ^ (shift + 7) + v % 128 * 2 ^ shift ≡ v * 2 ^ shift
group_off v shift =
    let above = ap (λ (t : ℕ). v / 128 * t) (group_above shift) in
    let here = ap (λ (t : ℕ). t * 2 ^ shift) (div-add-mod v 128) in omega (arith, above, here)

-- The tenth group has room for one bit.
last_fits : (w s : ℕ) → w * 2 ^ s < 2 ^ 64 → s ≡ 63 → w ≤ 1
last_fits w s h e = omega (arith, rw e at h)

below_next : (r g s : ℕ) → r < 2 ^ s → g < 128 → r + g * 2 ^ s < 2 ^ (s + 7)
below_next r g s hr hg = rw group_above (grind arith)

-- One round of the loop at a byte of the buffer.
pub parse_varint_loop-some :
    (fuel r shift : ℕ) (buf : List ℕ) (pos byte : ℕ)
    → get_elem? buf pos ≡ some byte
    → parse_varint_loop (suc fuel) r shift buf pos ≡ (
        if ltb 63 shift
        then fail varint_overflow (pos + 1)
        else if overflows byte shift
        then fail varint_overflow (pos + 1)
        else if bit_and byte 0x80 == 0
        then done (add_group r byte shift) (pos + 1)
        else parse_varint_loop fuel (add_group r byte shift) (shift + 7) buf (pos + 1))
unfolding parse_varint_loop
parse_varint_loop-some fuel r shift buf pos byte e = rw (e, parse_varint_loop)

module _ (r shift : ℕ) (buf : List ℕ) (pos : ℕ) (rest : List ℕ) where
  last_byte :
      (fuel w : ℕ)
      → drop pos buf ≡ w ∷ rest
      → w < 128
      → shift ≤ 63
      → r < 2 ^ shift
      → r + w * 2 ^ shift < 2 ^ 64
      → parse_varint_loop (suc fuel) r shift buf pos ≡ done (r + w * 2 ^ shift) (pos + 1)
  last_byte fuel w at hw hs hr fits = ground (
    arith,
    parse_varint_loop-some fuel r shift buf pos w (get_elem?-drop buf rest pos w at),
    low_seven w,
    top_bit w,
    add_group_lem r w w shift,
    last_fits w shift,
  )

  flagged_byte :
      (fuel g : ℕ)
      → drop pos buf ≡ (g + 128) ∷ rest
      → g < 128
      → shift ≤ 56
      → r < 2 ^ shift
      → r + g * 2 ^ shift < 2 ^ 64
      → parse_varint_loop (suc fuel) r shift buf pos
        ≡ parse_varint_loop fuel (r + g * 2 ^ shift) (shift + 7) buf (pos + 1)
  flagged_byte fuel g at hg hs hr fits = ground (
    arith,
    parse_varint_loop-some fuel r shift buf pos (g + 128)
        (get_elem?-drop buf rest pos (g + 128) at),
    low_seven (g + 128),
    top_bit (g + 128),
    add_group_lem r (g + 128) g shift,
  )

parse_varint_loop-groups :
    (k w r shift fuel : ℕ) (buf : List ℕ) (pos : ℕ) (rest : List ℕ)
    → drop pos buf ≡ groups k w ++ rest
    → w < 128 ^ suc k
    → shift + 7 * k ≡ 63
    → k < fuel
    → r < 2 ^ shift
    → r + w * 2 ^ shift < 2 ^ 64
    → parse_varint_loop fuel r shift buf pos ≡ done (r + w * 2 ^ shift) (pos + length (groups k w))
unfolding groups
parse_varint_loop-groups k w r shift zero buf pos rest at hw hs hf hr fits = absurd (omega arith)
parse_varint_loop-groups zero w r shift (suc fuel) buf pos rest at hw hs hf hr fits =
    last_byte r shift buf pos rest fuel w at (omega arith) (omega arith) hr fits
parse_varint_loop-groups (suc k) w r shift (suc fuel) buf pos rest at hw hs hf hr fits =
    elim (Bool-cases (ltb w 128)) [
      | inl small ↦ rw small (
          last_byte r shift buf pos rest fuel w (rw small at at) (omega (arith, ltb→lt w 128 small))
            (omega arith) hr fits)
      | inr more ↦
          let g = w % 128 in
          let tail = groups k (w / 128) in
          let here : drop pos buf ≡ (g + 128) ∷ (tail ++ rest) = rw more at at in
          rw more (
            flagged_byte r shift buf pos (tail ++ rest) fuel g here (omega arith) (omega arith) hr
              (omega (arith, group_off w shift))
            ∙ parse_varint_loop-groups k (w / 128) (r + g * 2 ^ shift) (shift + 7) fuel buf
                (pos + 1) rest (drop-suc buf (tail ++ rest) pos (g + 128) here) (omega arith)
                (omega arith) (omega arith) (below_next r g shift hr (omega arith))
                (omega (arith, group_off w shift))
            ∙ ap₂ done (omega (arith, group_off w shift)) (omega arith))
    ]

-- At any position of a buffer where `write_varint v` stands.
pub parse_varint_at :
    (v : ℕ) (buf : List ℕ) (pos : ℕ) (rest : List ℕ)
    → v < 2 ^ 64
    → drop pos buf ≡ write_varint v ++ rest
    → parse_varint buf pos ≡ done v (pos + length (write_varint v))
unfolding parse_varint
parse_varint_at v buf pos rest h at = rw (write_varint-groups v h) (
    parse_varint_loop-groups 9 v 0 0 11 buf pos rest (rw (write_varint-groups v h) at at)
      (omega arith) (omega arith) (omega arith) (omega arith) (omega arith)
    ∙ ap (λ (n : ℕ). done n (pos + length (groups 9 v))) (omega arith))

-- `parse_varint` returns the `u64` that `write_varint` wrote into the middle of a buffer, and
-- stops right behind it.
pub parse_varint-write_varint :
    (v : ℕ) (before behind : List ℕ)
    → v < 2 ^ 64
    → parse_varint (before ++ (write_varint v ++ behind)) (length before)
      ≡ done v (length before + length (write_varint v))
parse_varint-write_varint v before behind h =
    parse_varint_at v _ _ behind h (drop-append before (write_varint v ++ behind))
