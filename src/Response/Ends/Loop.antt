-- ===== src/Response/Ends/Loop.antt =====
-- `parse_response` of sync/protocol/response_packets.rs returns.
use st_clickhouse_lib.Common.{
  ℕ, zero, suc, ◌+◌, ◌-◌, ◌*◌, ◌≤◌, ◌<◌, ◌≡◌, refl, List, [], ◌∷◌, ◌++◌, ltb, length, arith,
  Bool-cases, inl, inr, fun_ext, subst, sym,
}
use st_clickhouse_lib.Wire.Cursor.{Outcome, done, fail, stuck, Cursor, pure, after, ◌>>=◌}
use st_clickhouse_lib.Wire.Parse.{parse_varint}
use st_clickhouse_lib.Wire.Ends.{Ends, Any, Returned, Ends-Any, Ends-then, Ends-bind_taken}
use st_clickhouse_lib.Skip.Ends.Parts.{Ends-parse_varint}
use st_clickhouse_lib.Block.{Block}
use st_clickhouse_lib.Response.Packets.{
  Effect, push, go_on, stop, raise_chain, packet_body, parse_packet, response_loop, parse_response,
}
use st_clickhouse_lib.Response.Ends.Parts.{
  wire_ends, Takes-parse_varint, Ends-parse_exception_chain, Ends-skip_text, Ends-skip_progress,
  Ends-skip_profile_info, Ends-skip_part_uuids, Ends-skip_announcement,
}
use st_clickhouse_lib.Response.Ends.Blocks.{Ends-parse_block_shared}

module _ {A B C : Type 0} (f : A → Cursor B) (g : B → Cursor C) where
  after-after :
      (o : Outcome A) (buf : List ℕ) → after (after o f buf) g buf ≡ after o (λ a. f a >>= g) buf
  unfolding ◌>>=◌
  after-after (done a p) buf = refl
  after-after (fail e p) buf = refl
  after-after stuck buf = refl

  >>=_assoc : (m : Cursor A) → (m >>= f >>= g) ≡ (m >>= λ a. f a >>= g)
  unfolding ◌>>=◌
  >>=_assoc m = fun_ext (λ buf. fun_ext (λ pos. after-after (m buf pos) buf))

module _ (fuel revision room : ℕ) (enough : 265 * room + 265 < fuel) where
  Ends-packet_body : (packet_type : ℕ) → Ends room Any (packet_body fuel revision packet_type)
  unfolding packet_body raise_chain
  Ends-packet_body packet_type =
      search
        (
          wire_ends,
          Ends-parse_exception_chain,
          Ends-skip_text,
          Ends-skip_progress,
          Ends-skip_profile_info,
          Ends-skip_part_uuids,
          Ends-skip_announcement,
          Ends-parse_block_shared fuel room enough,
        )
        depth 24

Ends-round :
    (fuel revision room : ℕ) (next : Effect → Cursor (List Block))
    → 265 * room + 265 < fuel
    → (1 ≤ room → (effect : Effect) → Ends (room - 1) Any (next effect))
    → Ends room Any (parse_packet fuel revision >>= next)
unfolding parse_packet
Ends-round fuel revision room next enough h =
    subst (λ m. Ends room Any m) (sym (>>=_assoc (packet_body fuel revision) next parse_varint))
      (Ends-bind_taken Any Any 1 room parse_varint _ Takes-parse_varint (Ends-parse_varint room)
        (λ some_room packet_type u.
          Ends-then Any (room - 1) _ next
            (Ends-packet_body fuel revision (room - 1) (omega arith) packet_type) (h some_room)))

effect_Ends :
    (room : ℕ) (blocks : List Block) (k : List Block → Cursor (List Block))
    → ((bs : List Block) → Ends room Any (k bs))
    → (effect : Effect)
    → Ends room Any (elim effect [
      | push block ↦ k (blocks ++ (block ∷ []))
      | go_on ↦ k blocks
      | stop ↦ pure blocks
    ])
effect_Ends room blocks k h (push block) = h (blocks ++ (block ∷ []))
effect_Ends room blocks k h go_on = h blocks
effect_Ends room blocks k h stop = Ends-Any room blocks

Ends-response_loop :
    (fuel revision rounds room : ℕ) (blocks : List Block)
    → 265 * room + 265 < fuel
    → room < rounds
    → Ends room Any (response_loop fuel revision rounds blocks)
unfolding response_loop Ends
Ends-response_loop fuel revision zero room blocks enough h buf pos inside few = absurd (omega arith)
Ends-response_loop fuel revision (suc rounds) room blocks enough h buf pos inside few =
    elim (Bool-cases (ltb pos (length buf))) [
      | inl more ↦
          rw (more, response_loop)
            (Ends-round fuel revision room _ enough
              (λ some_room.
                effect_Ends (room - 1) blocks (response_loop fuel revision rounds) (λ bs.
                  Ends-response_loop fuel revision rounds (room - 1) bs (omega arith)
                    (omega arith)))
              buf pos inside few)
      | inr gone ↦ rw (gone, response_loop) (omega arith, inside, tt)
    ]

-- Reading a buffered response always returns, whatever the server sent: 265 nested calls for each byte
-- of the response and 266 more are enough fuel, and so is one round of the loop more than bytes. It
-- yields the blocks or an error, and where it yields blocks it has stopped inside the response.
pub parse_response-Returned :
    (fuel : ℕ) (arena : List ℕ) (protocol_revision : ℕ)
    → 265 * length arena + 265 < fuel
    → Returned arena 0 Any (parse_response fuel arena protocol_revision)
unfolding parse_response Ends
parse_response-Returned fuel arena protocol_revision enough =
    Ends-response_loop fuel protocol_revision (suc (length arena)) (length arena) [] enough
      (omega arith) arena 0 (omega arith) (omega arith)
