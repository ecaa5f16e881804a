-- ===== src/Wire/Encoding.antt =====
-- What the varint writers produce, in plain arithmetic.
use st_clickhouse_lib.Common.{
  ℕ, zero, suc, ◌+◌, ◌/◌, ◌%◌, ◌^◌, ◌≤◌, ◌<◌, ◌≡◌, List, [], ◌∷◌, ◌++◌, length, All, append_assoc,
  bit_and, bit_or, ltb, if◌then◌else◌, arith, lt_wf,
}
use st_clickhouse_lib.Common.Bits.{low_seven, set_top_bit}
use st_clickhouse_lib.Common.Bytes.{IsByte}
use st_clickhouse_lib.Wire.Write.{
  write_varint_loop, write_varint, encode_varint_loop, encode_varint, varint_len_loop, varint_len,
}
use mathlib.Core.WellFounded.{Acc}

-- The base-128 digits of `v` in at most `k + 1` groups, lowest first; all but the last are flagged.
unfoldable pub groups : ℕ → ℕ → List ℕ
groups zero v = v ∷ []
groups (suc k) v =
    let more = groups k (v / 128) in if ltb v 128 then v ∷ [] else (v % 128 + 128) ∷ more

last_group : (v : ℕ) → bit_and v 0x7f ≡ v % 128
last_group v = low_seven v

flagged_group : (v : ℕ) → bit_or (bit_and v 0x7f) 0x80 ≡ v % 128 + 128
flagged_group v = rw low_seven (set_top_bit (v % 128) (omega arith))

write_varint_loop-groups :
    (k v : ℕ) (w : Acc ◌<◌ v) → v < 128 ^ suc k → write_varint_loop v w ≡ groups k v
unfolding write_varint_loop groups
write_varint_loop-groups zero v (Acc.intro _ smaller) h = ground (arith, last_group v)
write_varint_loop-groups (suc k) v (Acc.intro _ smaller) h = grind (
  arith,
  last_group v,
  flagged_group v,
  λ (w : Acc ◌<◌ (v / 128)). write_varint_loop-groups k (v / 128) w (omega arith),
)

-- On every `u64` the writer produces the groups, at most ten of them.
pub write_varint-groups : (v : ℕ) → v < 2 ^ 64 → write_varint v ≡ groups 9 v
unfolding write_varint
write_varint-groups v h = write_varint_loop-groups 9 v (lt_wf.apply v) (omega arith)

encode_varint_loop-write :
    (k : ℕ) (buf : List ℕ) (v : ℕ) (w : Acc ◌<◌ v)
    → v < 128 ^ suc k
    → encode_varint_loop buf v w ≡ buf ++ groups k v
unfolding encode_varint_loop groups
encode_varint_loop-write zero buf v (Acc.intro _ smaller) h = ground (arith, last_group v)
encode_varint_loop-write (suc k) buf v (Acc.intro _ smaller) h =
    let flagged : List ℕ = (v % 128 + 128) ∷ [] in
    grind (
      arith,
      last_group v,
      flagged_group v,
      λ (w : Acc ◌<◌ (v / 128)).
          encode_varint_loop-write k (buf ++ flagged) (v / 128) w (omega arith),
      append_assoc buf flagged (groups k (v / 128)),
    )

pub groups-IsByte : (k v : ℕ) → v < 128 ^ suc k → All IsByte (groups k v)
unfolding groups
groups-IsByte zero v h = omega arith
groups-IsByte (suc k) v h = ground (arith, groups-IsByte k (v / 128) (omega arith))

pub length-groups : (k v : ℕ) → (1 ≤ length (groups k v)) × (length (groups k v) ≤ k + 1)
unfolding groups
length-groups zero v = omega arith
length-groups (suc k) v = ground (arith, length-groups k (v / 128))

varint_len_loop-groups :
    (k v : ℕ) (w : Acc ◌<◌ v) (len : ℕ)
    → v < 128 ^ suc k
    → varint_len_loop v w len + 1 ≡ len + length (groups k v)
unfolding varint_len_loop groups
varint_len_loop-groups zero v (Acc.intro _ smaller) len h = ground arith
varint_len_loop-groups (suc k) v (Acc.intro _ smaller) len h =
    grind (
      arith,
      λ (w : Acc ◌<◌ (v / 128)). varint_len_loop-groups k (v / 128) w (len + 1) (omega arith),
    )

-- For every `u64`, `write_varint` writes between 1 and 10 bytes, and `varint_len` returns exactly
-- the number of bytes that it writes; pushing onto a buffer with `encode_varint` keeps the buffer
-- and appends the same bytes.
pub write_varint_shape :
    (v : ℕ) (buf : List ℕ)
    → v < 2 ^ 64
    → All IsByte (write_varint v)
      × (1 ≤ length (write_varint v))
      × (length (write_varint v) ≤ 10)
      × (varint_len v ≡ length (write_varint v))
      × (encode_varint buf v ≡ buf ++ write_varint v)
unfolding varint_len encode_varint
write_varint_shape v buf h =
    let (lo, hi) = length-groups 9 v in
    rw (write_varint-groups v h) (
      groups-IsByte 9 v (omega arith),
      lo,
      hi,
      omega (arith, varint_len_loop-groups 9 v (lt_wf.apply v) 1 (omega arith)),
      encode_varint_loop-write 9 buf v (lt_wf.apply v) (omega arith),
    )
