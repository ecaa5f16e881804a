-- ===== src/Compression/Reader/Opens.antt =====
-- Opening the reader on a body that is compressed, and on one that is not.
use st_clickhouse_lib.Common.{
  ℕ, ◌+◌, ◌-◌, ◌≤◌, ◌<◌, ◌≡◌, refl, sym, ap, subst, ◌∙◌, List, [], ◌∷◌, ◌++◌, Bool, true, false,
  lt→ltb, ge→ltb, ok, length, length-append, length-take, length-drop, append_assoc, take, drop,
  take-append-drop, arith,
}
use st_clickhouse_lib.Common.Bytes.{from_le_bytes}
use st_clickhouse_lib.Limits.Caps.{max_block_bytes}
use st_clickhouse_lib.Wire.Read.{read_exact}
use st_clickhouse_lib.Wire.Source.{Source, SourceLaws, read_all}
use st_clickhouse_lib.Wire.Source.Refines.{Simulates, read_all_at, read_all-Simulates}
use st_clickhouse_lib.Compression.Frame.{Codecs, max_frame_size, decode_frame}
use st_clickhouse_lib.Compression.Reader.{
  DecompressingReader, is_method, frame_size, first_frame, after_sniff, new_decompressing,
  decompressing,
}
use st_clickhouse_lib.Compression.Reader.Frames.{
  Frames, swap_in_decoded_fits, Cut, decode_frame-Cut, Cut-shorter,
}
use st_clickhouse_lib.Compression.Reader.Stream.{Holds}
use st_clickhouse_lib.Compression.Reader.Refines.{decompressing_laws}

-- The body of a packet, and the bytes it stands for: frames, one at least, or bytes whose 17th is
-- no method, or whose size field is too small for a frame.
pub data Body (cs : Codecs) : List ℕ → List ℕ → Type 0 where
  compressed :
      {src out wire payload more : List ℕ}
      → decode_frame cs src ≡ ok (out, wire)
      → Frames cs wire payload
      → more ≡ out ++ payload
      → Body cs src more
  not_a_method :
      {src : List ℕ} (first : ℕ) (more rest : List ℕ)
      → src ≡ first ∷ (more ++ rest)
      → length more ≡ 16
      → is_method (from_le_bytes (drop 15 more)) ≡ false
      → Body cs src src
  too_small :
      {src : List ℕ} (first : ℕ) (more others rest : List ℕ)
      → src ≡ first ∷ (more ++ (others ++ rest))
      → length more ≡ 16
      → length others ≡ 8
      → is_method (from_le_bytes (drop 15 more)) ≡ true
      → frame_size (first ∷ (more ++ others)) < 9
      → Body cs src src

module _ {R : Type 0} (S : Source R) (Stands : R → List ℕ → Type 0) (laws : SourceLaws S Stands)
    (cs : Codecs) where
  -- The reader after the 17 bytes that are looked at first, and their method.
  sniffed :
      (inner : R) (b : ℕ) (more rest : List ℕ) (t : Bool)
      → length more ≡ 16
      → is_method (from_le_bytes (drop 15 more)) ≡ t
      → Stands inner (b ∷ (more ++ rest))
      → (behind : R) × Stands behind rest
        × (new_decompressing S cs inner ≡ after_sniff S cs t (b ∷ more) behind)
  unfolding new_decompressing after_sniff
  sniffed inner b more rest t h e s =
      let (r1, e1, s1) = read_all_at S Stands laws 1 inner (b ∷ []) (more ++ rest) refl s in
      let (r2, e2, s2) = read_all_at S Stands laws 16 r1 more rest h s1 in
      (r2, s2, rw (e1, e2, e) refl)

  -- The 25 bytes of a frame's header, after a method was seen.
  headed :
      (inner : R) (b : ℕ) (more others rest : List ℕ)
      → length more ≡ 16
      → length others ≡ 8
      → is_method (from_le_bytes (drop 15 more)) ≡ true
      → Stands inner (b ∷ (more ++ (others ++ rest)))
      → (behind : R) × Stands behind rest
        × (new_decompressing S cs inner ≡ first_frame S cs behind (b ∷ (more ++ others)))
  headed inner b more others rest h k e s =
      let (r2, s2, e2) = sniffed inner b more (others ++ rest) true h e s in
      let (r3, e3, s3) = read_all_at S Stands laws 8 r2 others rest k s2 in
      (r3, s3, e2 ∙ (unfold after_sniff in rw e3 refl))

  after_sniff_plain :
      (sniff : List ℕ) (inner : R)
      → after_sniff S cs false sniff inner
        ≡ ok (record { inner = inner; buf = sniff; pos = 0; plain = true; produced = 0 })
  unfolding after_sniff
  after_sniff_plain sniff inner = refl

  first_frame_small :
      (frame : List ℕ) (inner : R)
      → frame_size frame < 9
      → first_frame S cs inner frame
        ≡ ok (record { inner = inner; buf = frame; pos = 0; plain = true; produced = 0 })
  unfolding first_frame
  first_frame_small frame inner low = rw (lt→ltb (frame_size frame) 9 low) refl

  -- The first frame, complete.
  first_frame_at :
      (src out wire : List ℕ) (c : Cut cs src out wire) (inner : R)
      → Stands inner (c.body ++ wire)
      → length out ≤ max_block_bytes
      → (behind : R) × Stands behind wire
        × (first_frame S cs inner (c.b ∷ c.more)
            ≡ ok (record {
              inner = behind;
              buf = out;
              pos = 0;
              plain = false;
              produced = 0 + length out;
            }))
  unfolding first_frame
  first_frame_at src out wire c inner s fits =
      let (r4, e4, s4) =
        read_all_at S Stands laws (frame_size (c.b ∷ c.more) - 9) inner c.body wire c.body_length
          s in
      let opened : DecompressingReader R = record {
        inner = r4;
        buf = [];
        pos = 0;
        plain = false;
        produced = 0;
      } in
      (
        r4,
        s4,
        rw
            (
              ge→ltb (frame_size (c.b ∷ c.more)) 9 c.low,
              ge→ltb max_frame_size (frame_size (c.b ∷ c.more)) c.high,
              e4,
              swap_in_decoded_fits cs ((c.b ∷ c.more) ++ c.body) out opened c.decodes (omega arith),
            )
            refl,
      )

  module _ (fuel : ℕ) (inner : R) where
    abbrev Opened : List ℕ → Type 0
    Opened payload =
        (r : DecompressingReader R) × (new_decompressing S cs inner ≡ ok r)
        × Holds S Stands laws cs fuel r payload

    replayed_Holds :
        (behind : R) (bytes rest src : List ℕ)
        → 0 < fuel
        → Stands behind rest
        → src ≡ bytes ++ rest
        → Holds S Stands laws cs fuel
            (record { inner = behind; buf = bytes; pos = 0; plain = true; produced = 0 })
            src
    replayed_Holds behind bytes rest src f s e = record {
      wire = rest;
      later = rest;
      stands = s;
      coming = (refl, f);
      parts = e;
    }

    compressed_Opened :
        (src out wire payload : List ℕ)
        → Cut cs src out wire
        → Frames cs wire payload
        → Stands inner src
        → length (out ++ payload) ≤ max_block_bytes
        → length src < fuel
        → Opened (out ++ payload)
    compressed_Opened src out wire payload c frames s fits f =
        let sum = length-append out payload in
        let parts : c.more ≡ take 16 c.more ++ drop 16 c.more = sym (take-append-drop 16 c.more) in
        let whole =
          c.splits
          ∙ ap (λ x. c.b ∷ (x ++ (c.body ++ wire))) parts
          ∙ ap (λ x. c.b ∷ x) (append_assoc (take 16 c.more) (drop 16 c.more) (c.body ++ wire)) in
        let (r3, s3, e3) =
          headed inner c.b (take 16 c.more) (drop 16 c.more) (c.body ++ wire)
            (omega (arith, c.more_length, length-take 16 c.more))
            (omega (arith, c.more_length, length-drop 16 c.more)) c.known
            (subst (Stands inner) whole s) in
        let (r4, s4, e4) = first_frame_at src out wire c r3 s3 (omega (arith, sum)) in
        let shorter = Cut-shorter cs src out wire c in
        (
          _,
          e3 ∙ ap (λ x. first_frame S cs r3 (c.b ∷ x)) (sym parts) ∙ e4,
          record {
            wire = wire;
            later = payload;
            stands = s4;
            coming = (frames, omega (arith, sum), omega arith);
            parts = refl;
          },
        )

    Body-Opened :
        (src payload : List ℕ)
        → Body cs src payload
        → Stands inner src
        → length payload ≤ max_block_bytes
        → length src < fuel
        → Opened payload
    Body-Opened src payload (compressed {out} {wire} {payload = behind} e frames split) s fits f =
        rw split (
          compressed_Opened src out wire behind (decode_frame-Cut cs src out wire e) frames s
            (rw split at fits) f)
    Body-Opened src payload (not_a_method first more rest split h e) s fits f =
        let (r2, s2, e2) = sniffed inner first more rest false h e (subst (Stands inner) split s) in
        (
          _,
          e2 ∙ after_sniff_plain (first ∷ more) r2,
          replayed_Holds r2 (first ∷ more) rest src (omega arith) s2 split,
        )
    Body-Opened src payload (too_small first more others rest split h k e low) s fits f =
        let (r3, s3, e3) =
          headed inner first more others rest h k e (subst (Stands inner) split s) in
        (
          _,
          e3 ∙ first_frame_small (first ∷ (more ++ others)) r3 low,
          replayed_Holds r3 (first ∷ (more ++ others)) rest src (omega arith) s3
              (split ∙ ap (λ x. first ∷ x) (sym (append_assoc more others rest))),
        )

  -- Over any source that keeps its laws, on the body of a packet that is at least one whole frame,
  -- or that is plain and can be told from a frame: it has 17 bytes at least, of which the last is
  -- no method, or 25 bytes at least, whose size field is below 9. With at most 1 GiB of data, and
  -- more fuel than the body has bytes: opening the reader succeeds, and reading exactly n bytes
  -- from it does what reading them from the data does. It returns the same bytes, and a reader that
  -- stands for the data behind them, or UnexpectedEof where fewer are left.
  pub decompressing-Simulates :
      (fuel n : ℕ) (inner : R) (src payload : List ℕ)
      → Body cs src payload
      → Stands inner src
      → length payload ≤ max_block_bytes
      → length src < fuel
      → (r : DecompressingReader R) × (new_decompressing S cs inner ≡ ok r)
        × Simulates
            (Holds S Stands laws cs fuel)
            (read_exact n payload)
            (read_all (decompressing S cs fuel) n r)
  decompressing-Simulates fuel n inner src payload body s fits f =
      let (r, e, held) = Body-Opened fuel inner src payload body s fits f in
      (
        r,
        e,
        read_all-Simulates (decompressing S cs fuel) (Holds S Stands laws cs fuel)
            (decompressing_laws S Stands laws cs fuel) n r payload held,
      )
