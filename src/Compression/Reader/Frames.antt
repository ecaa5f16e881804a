-- ===== src/Compression/Reader/Frames.antt =====
-- One frame pulled from a source that stands for a sequence of frames.
use st_clickhouse_lib.Common.{
  ℕ, ◌+◌, ◌-◌, ◌≤◌, ◌≡◌, refl, sym, ap, subst, ◌∙◌, List, [], ◌∷◌, ◌++◌, Bool, true, ge→ltb, Result,
  ok, length, length-append, append_assoc, append-nil, take, drop, length-take, length-drop,
  take-append-drop, take-append_le, drop-append_le, take_all, take-drop-take, arith,
}
use st_clickhouse_lib.Common.Bytes.{from_le_bytes}
use st_clickhouse_lib.Error.{Error}
use st_clickhouse_lib.Limits.Caps.{max_block_bytes, checked_block_bytes, checked_add}
use st_clickhouse_lib.Wire.Source.{Source, SourceLaws, read_all}
use st_clickhouse_lib.Wire.Source.Refines.{read_all_at, read_one}
use st_clickhouse_lib.Compression.Frame.{
  Codecs, CompressionMethod, method_of, from_byte, max_frame_size, decode_frame, decode_frame_bytes,
}
use st_clickhouse_lib.Compression.Genuine.{Genuine, decode_frame-Genuine}
use st_clickhouse_lib.Compression.Reader.{
  DecompressingReader, is_method, frame_size, swap_in_decoded, next_frame, pull_from,
  pull_next_frame,
}

-- A wire of whole frames, and the data in them one after another.
pub data Frames (cs : Codecs) : List ℕ → List ℕ → Type 0 where
  ends : Frames cs [] []
  frame :
      {src out wire payload more : List ℕ}
      → decode_frame cs src ≡ ok (out, wire)
      → Frames cs wire payload
      → more ≡ out ++ payload
      → Frames cs src more

abbrev pub swapped : {R : Type 0} → DecompressingReader R → List ℕ → DecompressingReader R
swapped r out = record r { buf = out; pos = 0; produced = r.produced + length out }

pub swap_in_decoded_fits :
    {R : Type 0} (cs : Codecs) (bytes out : List ℕ) (r : DecompressingReader R)
    → decode_frame cs bytes ≡ ok (out, [])
    → r.produced + length out ≤ max_block_bytes
    → swap_in_decoded cs bytes r ≡ ok (swapped r out)
unfolding swap_in_decoded decode_frame_bytes checked_block_bytes checked_add
swap_in_decoded_fits cs bytes out r e fits = ground (arith, e)

-- A frame is its first 25 bytes and the body that its size field promises.
pub record Cut (cs : Codecs) (src out wire : List ℕ) : Type 0 where
  pub b : ℕ
  pub more : List ℕ
  pub body : List ℕ
  pub splits : src ≡ b ∷ (more ++ (body ++ wire))
  pub more_length : length more ≡ 24
  pub low : 9 ≤ frame_size (b ∷ more)
  pub high : frame_size (b ∷ more) ≤ max_frame_size
  pub body_length : length body ≡ frame_size (b ∷ more) - 9
  pub decodes : decode_frame cs ((b ∷ more) ++ body) ≡ ok (out, [])
  pub out_high : length out ≤ max_frame_size
  pub known : is_method (from_le_bytes (drop 15 (take 16 more))) ≡ true

method_of-is_method :
    (header : List ℕ) (m : CompressionMethod)
    → 1 ≤ length header
    → method_of header ≡ ok m
    → is_method (from_le_bytes (take 1 header)) ≡ true
method_of-is_method [] m h e = elim h [ ]
method_of-is_method (x ∷ xs) m h e = unfold method_of from_byte in ground (arith, e)

size_kept :
    (b : ℕ) (more body : List ℕ)
    → length more ≡ 24
    → frame_size ((b ∷ more) ++ body) ≡ frame_size (b ∷ more)
size_kept b more body h =
    ap (λ x. from_le_bytes (take 4 x)) (drop-append_le 16 more body (omega arith))
    ∙ ap from_le_bytes (take-append_le 4 (drop 16 more) body (omega (arith, length-drop 16 more)))

Genuine-Cut : (cs : Codecs) (src out wire : List ℕ) → Genuine cs src out wire → Cut cs src out wire
Genuine-Cut cs src out wire g =
    cut g.frame g.splits g.has_header g.within_cap g.compressed_size g.out_within_cap (g.alone [])
      g.method
  where
    cut :
        (f : List ℕ)
        → src ≡ f ++ wire
        → 25 ≤ length f
        → length f ≤ 16 + max_frame_size
        → length f ≡ 16 + frame_size f
        → length out ≤ max_frame_size
        → decode_frame cs (f ++ []) ≡ ok (out, [])
        → ((m : CompressionMethod) × (method_of (drop 16 f) ≡ ok m))
        → Cut cs src out wire
    cut [] s low high size fits alone method = absurd (omega arith)
    cut (b ∷ rest) s low high size fits alone (m, method) = record {
      b = b;
      more = take 24 rest;
      body = drop 24 rest;
      splits =
          s
          ∙ ap (λ x. b ∷ (x ++ wire)) (sym (take-append-drop 24 rest))
          ∙ ap (λ x. b ∷ x) (append_assoc (take 24 rest) (drop 24 rest) wire);
      more_length = omega (arith, length-take 24 rest);
      low = omega (arith, same);
      high = omega (arith, same);
      body_length = omega (arith, same, length-drop 24 rest);
      decodes = ap (decode_frame cs) (whole ∙ sym (append-nil (b ∷ rest))) ∙ alone;
      out_high = fits;
      known =
          ap (λ x. is_method (from_le_bytes x)) byte_at
          ∙ method_of-is_method (drop 15 rest) m (omega (arith, length-drop 15 rest)) method;
    }
      where
        byte_at : drop 15 (take 16 (take 24 rest)) ≡ take 1 (drop 15 rest)
        byte_at =
            sym (
              take_all 1 (drop 15 (take 16 (take 24 rest))) (
                omega
                  (arith, length-drop 15 (take 16 (take 24 rest)), length-take 16 (take 24 rest))))
            ∙ take-drop-take 16 15 1 (take 24 rest) (omega arith)
                (omega (arith, length-take 24 rest))
            ∙ take-drop-take 24 15 1 rest (omega arith) (omega arith)

        whole : (b ∷ take 24 rest) ++ drop 24 rest ≡ b ∷ rest
        whole = ap (λ x. b ∷ x) (take-append-drop 24 rest)

        same : frame_size (b ∷ take 24 rest) ≡ frame_size (b ∷ rest)
        same =
            sym (size_kept b (take 24 rest) (drop 24 rest) (omega (arith, length-take 24 rest)))
            ∙ ap frame_size whole

pub decode_frame-Cut :
    (cs : Codecs) (src out wire : List ℕ)
    → decode_frame cs src ≡ ok (out, wire)
    → Cut cs src out wire
decode_frame-Cut cs src out wire e =
    Genuine-Cut cs src out wire (decode_frame-Genuine cs src out wire e)

-- A decoded frame takes 25 bytes at least.
pub Cut-shorter :
    (cs : Codecs) (src out wire : List ℕ) → Cut cs src out wire → length wire + 25 ≤ length src
Cut-shorter cs src out wire c = omega (
  arith,
  ap length c.splits,
  length-append c.more (c.body ++ wire),
  length-append c.body wire,
  c.more_length,
)

module _ {R : Type 0} (S : Source R) (Stands : R → List ℕ → Type 0) (laws : SourceLaws S Stands)
    (cs : Codecs) where
  -- What the reader is after it pulled a frame.
  pub record Pulled (r : DecompressingReader R) (out wire : List ℕ)
      (result : Result (Bool × DecompressingReader R) Error) : Type 0 where
    pub behind : R
    pub stands : Stands behind wire
    pub returns : result ≡ ok (true, swapped (record r { inner = behind }) out)

  next_frame_at :
      (r : DecompressingReader R) (src out wire : List ℕ) (c : Cut cs src out wire)
      (inner behind : R)
      → read_all S (frame_size (c.b ∷ c.more) - 9) inner ≡ ok (c.body, behind)
      → r.produced + length out ≤ max_block_bytes
      → next_frame S cs r inner (c.b ∷ c.more) ≡ ok (swapped (record r { inner = behind }) out)
  unfolding next_frame
  next_frame_at r src out wire c inner behind e fits =
      rw
        (
          ge→ltb (frame_size (c.b ∷ c.more)) 9 c.low,
          ge→ltb max_frame_size (frame_size (c.b ∷ c.more)) c.high,
          e,
          swap_in_decoded_fits cs ((c.b ∷ c.more) ++ c.body) out (record r { inner = behind })
              c.decodes fits,
        )
        refl

  pub pull_next_frame-Pulled :
      (r : DecompressingReader R) (src out wire : List ℕ)
      → Stands r.inner src
      → decode_frame cs src ≡ ok (out, wire)
      → r.produced + length out ≤ max_block_bytes
      → Pulled r out wire (pull_next_frame S cs r)
  unfolding pull_next_frame pull_from
  pull_next_frame-Pulled r src out wire s e fits =
      let c = decode_frame-Cut cs src out wire e in
      let (r1, e1, s1) =
        read_one S Stands laws r.inner c.b (c.more ++ (c.body ++ wire))
          (subst (Stands r.inner) c.splits s) in
      let (r2, e2, s2) = read_all_at S Stands laws 24 r1 c.more (c.body ++ wire) c.more_length s1 in
      let (r3, e3, s3) =
        read_all_at S Stands laws (frame_size (c.b ∷ c.more) - 9) r2 c.body wire c.body_length s2 in
      record {
        behind = r3;
        stands = s3;
        returns = rw (e1, e2, next_frame_at r src out wire c r2 r3 e3 fits) refl;
      }
