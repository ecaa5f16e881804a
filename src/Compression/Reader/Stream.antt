-- ===== src/Compression/Reader/Stream.antt =====
-- The reader hands out the data of the frames, or the plain bytes, in order and without gaps.
use st_clickhouse_lib.Common.{
  ℕ, ◌+◌, ◌-◌, ◌≤◌, ◌<◌, ◌≡◌, inl, inr, refl, sym, ap, subst, ◌∙◌, List, [], ◌∷◌, ◌++◌, Bool, true,
  false, min, Result, ok, ◌>>=◌, length, append_assoc, drop, drop_all, arith,
}
use st_clickhouse_lib.Error.{Error}
use st_clickhouse_lib.Limits.Caps.{max_block_bytes}
use st_clickhouse_lib.Wire.Source.Slices.{slice}
use st_clickhouse_lib.Wire.Source.{Source, SourceLaws, Delivers, Ended}
use st_clickhouse_lib.Compression.Frame.{Codecs}
use st_clickhouse_lib.Compression.Reader.{
  DecompressingReader, pull_from, pull_next_frame, serve_pending,
}
use st_clickhouse_lib.Compression.Reader.Loop.{after_pull}
use st_clickhouse_lib.Compression.Reader.Frames.{Frames, ends}

-- What is still to come from the inner source: bytes as they are, or whole frames, whose data the
-- block's budget and the fuel leave room for.
abbrev pub Coming : Codecs → ℕ → Bool → ℕ → List ℕ → List ℕ → Type 0
Coming cs fuel true produced wire later = (wire ≡ later) × (0 < fuel)
Coming cs fuel false produced wire later =
    Frames cs wire later × (produced + length later ≤ max_block_bytes) × (length wire < fuel)

module _ {R : Type 0} (S : Source R) (Stands : R → List ℕ → Type 0) (laws : SourceLaws S Stands)
    (cs : Codecs) (fuel : ℕ) where
  -- The reader stands for `payload`: what is left of its buffer, and then what is to come.
  pub record Holds (r : DecompressingReader R) (payload : List ℕ) : Type 0 where
    pub wire : List ℕ
    pub later : List ℕ
    pub stands : Stands r.inner wire
    pub coming : Coming cs fuel r.plain r.produced wire later
    pub parts : payload ≡ drop r.pos r.buf ++ later

  pub serve_pending-Delivers :
      (out_len : ℕ) (r : DecompressingReader R) (payload : List ℕ)
      → 0 < out_len
      → r.pos < length r.buf
      → Holds r payload
      → Delivers Holds out_len payload (ok (serve_pending S cs out_len r))
  unfolding serve_pending
  serve_pending-Delivers out_len r payload h left held =
      let s = slice out_len r.pos r.buf h left in
      record {
        b = s.b;
        bs = s.bs;
        rest = drop (r.pos + min out_len (length r.buf - r.pos)) r.buf ++ held.later;
        next = record r { pos = r.pos + min out_len (length r.buf - r.pos) };
        returns = rw s.taken refl;
        splits =
            held.parts
            ∙ ap (λ x. x ++ held.later) s.splits
            ∙ append_assoc (s.b ∷ s.bs) (drop (r.pos + min out_len (length r.buf - r.pos)) r.buf)
                held.later;
        within_buffer = s.within;
        stands = record {
          wire = held.wire;
          later = held.later;
          stands = held.stands;
          coming = held.coming;
          parts = refl;
        };
      }

  -- With the buffer used up, the payload is what is to come.
  pub used_up :
      (r : DecompressingReader R) (payload : List ℕ) (held : Holds r payload)
      → length r.buf ≤ r.pos
      → payload ≡ held.later
  used_up r payload held h = held.parts ∙ ap (λ x. x ++ held.later) (drop_all r.pos r.buf h)

  -- What a read answers: bytes, or the end where nothing is left.
  abbrev pub Answers : ℕ → List ℕ → Result (List ℕ × DecompressingReader R) Error → Type 0
  Answers out_len [] result = Ended Holds result
  Answers out_len (b ∷ payload) result = Delivers Holds out_len (b ∷ payload) result

  pub Delivers-Answers :
      (out_len : ℕ) (payload : List ℕ) (result : Result (List ℕ × DecompressingReader R) Error)
      → Delivers Holds out_len payload result
      → Answers out_len payload result
  Delivers-Answers out_len [] result d = let e = d.splits in cc
  Delivers-Answers out_len (b ∷ payload) result d = d

  -- The inner source moved on, in a plain body or at the end of the frames.
  moved_Holds :
      (r : DecompressingReader R) (next : R) (rest : List ℕ)
      → length r.buf ≤ r.pos
      → Stands next rest
      → Coming cs fuel r.plain r.produced rest rest
      → Holds (record r { inner = next }) rest
  moved_Holds r next rest used s coming = record {
    wire = rest;
    later = rest;
    stands = s;
    coming = coming;
    parts = ap (λ x. x ++ rest) (sym (drop_all r.pos r.buf used));
  }

  module _ (r : DecompressingReader R) (f : 0 < fuel) (used : length r.buf ≤ r.pos) where
    plain_moved :
        r.plain ≡ true
        → (next : R) (rest : List ℕ) → Stands next rest
        → Holds (record r { inner = next }) rest
    plain_moved p next rest s =
        moved_Holds r next rest used s
          (subst (λ t. Coming cs fuel t r.produced rest rest) (sym p) (refl, f))

    -- A plain body: the read is the inner source's.
    pub plain_Answers :
        (out_len : ℕ) (wire : List ℕ)
        → 0 < out_len
        → r.plain ≡ true
        → Stands r.inner wire
        → Answers out_len wire
            (S.read out_len r.inner >>= λ (bytes, inner). ok (bytes, record r { inner = inner }))
    plain_Answers out_len [] h p s = elim (laws.at_end out_len r.inner h s) [
      | inl e ↦ inl (rw e refl)
      | inr (next, e, t) ↦ inr (record r { inner = next }, rw e refl, plain_moved p next [] t)
    ]
    plain_Answers out_len (b ∷ wire) h p s =
        let d = laws.delivers out_len r.inner b wire h s in
        record {
          b = d.b;
          bs = d.bs;
          rest = d.rest;
          next = record r { inner = d.next };
          returns = rw d.returns refl;
          splits = d.splits;
          within_buffer = d.within_buffer;
          stands = plain_moved p d.next d.rest d.stands;
        }

    -- The end of the frames: no byte, or an inner source that fails.
    pub frames_end :
        (k out_len : ℕ)
        → r.plain ≡ false
        → r.produced ≤ max_block_bytes
        → Stands r.inner []
        → Ended Holds (after_pull S cs k out_len (pull_next_frame S cs r))
    unfolding pull_next_frame pull_from after_pull
    frames_end k out_len p b s = elim (laws.at_end 1 r.inner (omega arith) s) [
      | inl e ↦ inl (rw e refl)
      | inr (next, e, t) ↦ inr (
        record r { inner = next },
        rw e refl,
        moved_Holds r next [] used t
            (subst (λ u. Coming cs fuel u r.produced [] []) (sym p) (ends, omega arith, f)),
      )
    ]
