-- ===== src/Compression/Reader/Refines.antt =====
-- The reader is a lawful source: it stands for the data of the frames, or for the plain bytes.
use st_clickhouse_lib.Common.{
  ℕ, zero, suc, ◌+◌, ◌≤◌, ◌<◌, ◌≡◌, inl, inr, refl, sym, ap, subst, ◌∙◌, List, [], ◌∷◌, ◌++◌, false,
  Bool-cases, ltb→lt, ltb→ge, ne→==, ltb, length, length-append, arith,
}
use st_clickhouse_lib.Limits.Caps.{max_block_bytes}
use st_clickhouse_lib.Wire.Source.{Source, SourceLaws}
use st_clickhouse_lib.Compression.Frame.{Codecs}
use st_clickhouse_lib.Compression.Reader.{
  DecompressingReader, pull_next_frame, decompressing_loop, read_decompressed, decompressing,
}
use st_clickhouse_lib.Compression.Reader.Loop.{
  loop_serve, loop_plain, loop_pull, after_pull, after_pull_more,
}
use st_clickhouse_lib.Compression.Reader.Frames.{
  Frames, ends, frame, swapped, decode_frame-Cut, Cut-shorter, pull_next_frame-Pulled,
}
use st_clickhouse_lib.Compression.Reader.Stream.{
  Coming, Holds, serve_pending-Delivers, used_up, Answers, Delivers-Answers, plain_Answers,
  frames_end,
}

module _ {R : Type 0} (S : Source R) (Stands : R → List ℕ → Type 0) (laws : SourceLaws S Stands)
    (cs : Codecs) (fuel : ℕ) where
  -- What the loop answers with `k` rounds, for every reader that has few enough frames to come.
  abbrev Loops : ℕ → ℕ → Type 0
  Loops k out_len =
      (r : DecompressingReader R) (payload : List ℕ) (held : Holds S Stands laws cs fuel r payload)
      → 0 < k
      → (r.plain ≡ false → length held.wire < k)
      → Answers S Stands laws cs fuel out_len payload (decompressing_loop S cs k out_len r)

  Frames-Answers :
      {wire later : List ℕ} (k out_len : ℕ) (r : DecompressingReader R)
      → Frames cs wire later
      → length r.buf ≤ r.pos
      → r.plain ≡ false
      → r.produced + length later ≤ max_block_bytes
      → length wire < fuel
      → length wire < suc k
      → Stands r.inner wire
      → Loops k out_len
      → Answers S Stands laws cs fuel out_len later
          (after_pull S cs k out_len (pull_next_frame S cs r))
  Frames-Answers k out_len r ends used p b f room s loops =
      frames_end S Stands laws cs fuel r (omega arith) used k out_len p (omega arith) s
  Frames-Answers {wire = src} k out_len r (frame {out} {wire} {payload} e more split) used p b f
        room s loops =
      let shorter = Cut-shorter cs src out wire (decode_frame-Cut cs src out wire e) in
      let sum = ap length split ∙ length-append out payload in
      let pl = pull_next_frame-Pulled S Stands laws cs r src out wire s e (omega (arith, sum)) in
      let coming =
        subst (λ t. Coming cs fuel t (r.produced + length out) wire payload) (sym p)
          (more, omega (arith, sum), omega arith) in
      rw (split, pl.returns, after_pull_more S cs k out_len _)
        (loops (swapped (record r { inner = pl.behind }) out) (out ++ payload)
          (record {
            wire = wire;
            later = payload;
            stands = pl.stands;
            coming = coming;
            parts = refl;
          })
          (omega arith) (λ _. omega arith))

  loop_round : (k out_len : ℕ) → 0 < out_len → 0 < fuel → Loops k out_len → Loops (suc k) out_len
  loop_round k out_len h f loops r payload held z room =
      elim (Bool-cases (ltb r.pos (length r.buf))) [
        | inl left ↦ rw (loop_serve S cs k out_len r left) (
            Delivers-Answers S Stands laws cs fuel out_len payload _ (
              serve_pending-Delivers S Stands laws cs fuel out_len r payload h
                (ltb→lt r.pos (length r.buf) left) held))
        | inr over ↦
            let used = ltb→ge r.pos (length r.buf) over in
            rw (used_up S Stands laws cs fuel r payload held used) (elim (Bool-cases r.plain) [
              | inl p ↦
                  let (same, _) = rw p at held.coming in
                  rw (← same, loop_plain S cs k out_len r over p)
                    (plain_Answers S Stands laws cs fuel r f used out_len held.wire h p held.stands)
              | inr p ↦
                  let (frames, b, enough) = rw p at held.coming in
                  rw (loop_pull S cs k out_len r over p refl)
                    (Frames-Answers k out_len r frames used p b enough (room p) held.stands loops)
            ])
      ]

  loop_Answers : (k out_len : ℕ) → 0 < out_len → 0 < fuel → Loops k out_len
  loop_Answers zero out_len h f r payload held z room = absurd (omega arith)
  loop_Answers (suc k) out_len h f r payload held z room =
      loop_round k out_len h f (loop_Answers k out_len h f) r payload held z room

  Holds-fuel :
      (r : DecompressingReader R) (payload : List ℕ) (held : Holds S Stands laws cs fuel r payload)
      → (0 < fuel) × (r.plain ≡ false → length held.wire < fuel)
  Holds-fuel r payload held = elim (Bool-cases r.plain) [
    | inl p ↦ let (same, f) = rw p at held.coming in (f, λ q. let e = sym p ∙ q in cc)
    | inr p ↦ let (frames, b, f) = rw p at held.coming in (omega arith, λ _. f)
  ]

  read_Answers :
      (out_len : ℕ) (r : DecompressingReader R) (payload : List ℕ)
      → 0 < out_len
      → Holds S Stands laws cs fuel r payload
      → Answers S Stands laws cs fuel out_len payload (read_decompressed S cs fuel out_len r)
  unfolding read_decompressed
  read_Answers out_len r payload h held =
      let (f, room) = Holds-fuel r payload held in
      rw (ne→== out_len 0 (omega arith)) (loop_Answers fuel out_len h f r payload held f room)

  -- Over a lawful source, the reader is a lawful source.
  pub decompressing_laws : SourceLaws (decompressing S cs fuel) (Holds S Stands laws cs fuel)
  decompressing_laws = record {
    delivers = λ out_len r b payload h held. read_Answers out_len r (b ∷ payload) h held;
    at_end = λ out_len r h held. read_Answers out_len r [] h held;
  }
