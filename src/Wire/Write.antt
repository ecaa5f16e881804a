-- ===== src/Wire/Write.antt =====
-- The writers of shared/wire.rs, as the bytes that they hand to `write_all`, in order.
use st_clickhouse_lib.Common.{
  ℕ, ◌+◌, ◌/◌, ◌<◌, List, [], ◌∷◌, ◌++◌, bit_and, bit_or, length, arith, lt_wf, dec_lt,
}
use mathlib.Core.Logic.{dite}
use mathlib.Core.WellFounded.{Acc}

pub shift_shrinks : (v : ℕ) → 0 < v / 128 → v / 128 < v
shift_shrinks v h = omega arith

pub group_shrinks : (v : ℕ) → 127 < v → v / 128 < v
group_shrinks v h = omega arith

-- The loop over `value >>= 7`, which ends because the value falls.
unfoldable pub write_varint_loop : (value : ℕ) → Acc ◌<◌ value → List ℕ
write_varint_loop value (Acc.intro _ smaller) =
    dite (dec_lt 0 (value / 128))
      (λ more.
        bit_or (bit_and value 0x7f) 0x80
        ∷ write_varint_loop (value / 128) (smaller _ (shift_shrinks value more)))
      (λ _. bit_and value 0x7f ∷ [])

unfoldable pub write_varint : ℕ → List ℕ
unfolding write_varint_loop lt_wf dec_lt
write_varint value = write_varint_loop value (lt_wf.apply value)

unfoldable pub encode_varint_loop : List ℕ → (v : ℕ) → Acc ◌<◌ v → List ℕ
encode_varint_loop buf v (Acc.intro _ smaller) =
    dite (dec_lt 0 (v / 128))
      (λ more.
        encode_varint_loop (buf ++ (bit_or (bit_and v 0x7f) 0x80 ∷ [])) (v / 128)
          (smaller _ (shift_shrinks v more)))
      (λ _. buf ++ (bit_and v 0x7f ∷ []))

-- The same loop, with `buf.push`.
unfoldable pub encode_varint : List ℕ → ℕ → List ℕ
unfolding encode_varint_loop lt_wf dec_lt
encode_varint buf v = encode_varint_loop buf v (lt_wf.apply v)

unfoldable pub write_string_bytes : List ℕ → List ℕ
unfolding write_varint
write_string_bytes value = write_varint (length value) ++ value

-- A `&str` is its UTF-8 bytes.
unfoldable pub write_string : List ℕ → List ℕ
unfolding write_varint
write_string s = write_varint (length s) ++ s

-- `varint_len` of shared/block_writer.rs: the loop `while value >= 0x80`.
unfoldable pub varint_len_loop : (value : ℕ) → Acc ◌<◌ value → ℕ → ℕ
varint_len_loop value (Acc.intro _ smaller) len =
    dite (dec_lt 127 value)
      (λ more. varint_len_loop (value / 128) (smaller _ (group_shrinks value more)) (len + 1))
      (λ _. len)

unfoldable pub varint_len : ℕ → ℕ
unfolding varint_len_loop lt_wf dec_lt
varint_len value = varint_len_loop value (lt_wf.apply value) 1
