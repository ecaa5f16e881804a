-- ===== src/Compression/Genuine.antt =====
-- What holds of every frame that is decoded, whatever bytes the server sent.
use st_clickhouse_lib.Common.{
  ℕ, ◌+◌, ◌≤◌, ◌≡◌, refl, sym, ap, ◌∙◌, List, [], ◌∷◌, ◌++◌, ok, >>=-ok, ok-injective, subst,
  length, length-append, append_assoc, take, drop, take_first, drop_first, drop_beyond,
  take-append_le, drop-append_le, length-drop, arith,
}
use st_clickhouse_lib.Common.Bytes.{from_le_bytes}
use st_clickhouse_lib.Compression.Frame.{
  Codecs, CompressionMethod, FrameHeader, max_frame_size, method_of, check_sizes, parse_header,
  check_hash, check_length, decompress, decode_body, decode_frame,
}
use st_clickhouse_lib.Compression.Decode.{Decoded, decode_frame-Decoded, decode_frame_at}

-- The checksum in front of a frame is the hash of what follows it.
abbrev pub IsChecked : Codecs → List ℕ → Type 0
IsChecked cs frame =
    ((cs.city_hash_128 (drop 16 frame)).0 ≡ from_le_bytes (take 8 frame))
    × ((cs.city_hash_128 (drop 16 frame)).1 ≡ from_le_bytes (drop 8 (take 16 frame)))

pub record Genuine (cs : Codecs) (src out rest : List ℕ) : Type 0 where
  pub frame : List ℕ
  pub splits : src ≡ frame ++ rest
  pub has_header : 25 ≤ length frame
  pub within_cap : length frame ≤ 16 + max_frame_size
  pub compressed_size : length frame ≡ 16 + from_le_bytes (take 4 (drop 17 frame))
  pub uncompressed_size : length out ≡ from_le_bytes (take 4 (drop 21 frame))
  pub out_within_cap : length out ≤ max_frame_size
  pub checked : IsChecked cs frame
  pub method : (m : CompressionMethod) × (method_of (drop 16 frame) ≡ ok m)
  pub alone : (more : List ℕ) → decode_frame cs (frame ++ more) ≡ ok (out, more)

check_sizes-ok :
    (c u : ℕ) → check_sizes c u ≡ ok tt → (9 ≤ c) × (c ≤ max_frame_size) × (u ≤ max_frame_size)
unfolding check_sizes
check_sizes-ok c u e = ground arith

record Fields (header : List ℕ) (h : FrameHeader) : Type 0 where
  m : method_of header ≡ ok h.method
  c : h.compressed_size ≡ from_le_bytes (take 4 (drop 1 header))
  u : h.uncompressed_size ≡ from_le_bytes (drop 5 header)
  sizes :
      (9 ≤ h.compressed_size)
      × (h.compressed_size ≤ max_frame_size)
      × (h.uncompressed_size ≤ max_frame_size)

parse_header-Fields :
    (header : List ℕ) (h : FrameHeader) → parse_header header ≡ ok h → Fields header h
unfolding parse_header
parse_header-Fields header h e =
    let (method, e1, k1) = >>=-ok (method_of header) _ e in
    let c = from_le_bytes (take 4 (drop 1 header)) in
    let u = from_le_bytes (drop 5 header) in
    let (checked, e2, k2) = >>=-ok (check_sizes c u) _ k1 in
    subst (Fields header) (ok-injective k2)
      (record { m = e1; c = refl; u = refl; sizes = check_sizes-ok c u e2 })

-- The method stands in the first byte.
method_of-append : (xs ys : List ℕ) → 1 ≤ length xs → method_of (xs ++ ys) ≡ method_of xs
method_of-append [] ys h = elim h [ ]
method_of-append (x ∷ xs) ys h = unfold method_of in refl

check_hash-ok :
    (hash : ℕ × ℕ) (checksum : List ℕ)
    → check_hash hash checksum ≡ ok tt
    → (hash.0 ≡ from_le_bytes (take 8 checksum)) × (hash.1 ≡ from_le_bytes (drop 8 checksum))
unfolding check_hash
check_hash-ok hash checksum e = ground arith

check_length-ok :
    (h : FrameHeader) (xs ys : List ℕ) → check_length h xs ≡ ok ys → length ys ≡ h.uncompressed_size
unfolding check_length
check_length-ok h xs ys e = ground arith

-- Where the fields of a frame stand.
module _ (checksum header body : List ℕ) (c16 : length checksum ≡ 16) (h9 : length header ≡ 9) where
  after_checksum : drop 16 (checksum ++ (header ++ body)) ≡ header ++ body
  after_checksum = drop_first 16 checksum (header ++ body) c16

  low_half : take 8 (checksum ++ (header ++ body)) ≡ take 8 checksum
  low_half = take-append_le 8 checksum (header ++ body) (omega arith)

  high_half : drop 8 (take 16 (checksum ++ (header ++ body))) ≡ drop 8 checksum
  high_half = ap (drop 8) (take_first 16 checksum (header ++ body) c16)

  compressed_at : take 4 (drop 17 (checksum ++ (header ++ body))) ≡ take 4 (drop 1 header)
  compressed_at =
      ap (take 4) (
        drop_beyond 16 1 checksum (header ++ body) c16 ∙ drop-append_le 1 header body (omega arith))
      ∙ take-append_le 4 (drop 1 header) body (omega (arith, length-drop 1 header))

  uncompressed_at : take 4 (drop 21 (checksum ++ (header ++ body))) ≡ drop 5 header
  uncompressed_at =
      ap (take 4) (
        drop_beyond 16 5 checksum (header ++ body) c16 ∙ drop-append_le 5 header body (omega arith))
      ∙ take_first 4 (drop 5 header) body (omega (arith, length-drop 5 header))

module _ (cs : Codecs) where
  decode_body-ok :
      (checksum header body out : List ℕ) (h : FrameHeader)
      → decode_body cs checksum header h body ≡ ok out
      → (check_hash (cs.city_hash_128 (header ++ body)) checksum ≡ ok tt)
        × (length out ≡ h.uncompressed_size)
  unfolding decode_body
  decode_body-ok checksum header body out h e =
      let (checked, e1, k1) =
        >>=-ok (check_hash (cs.city_hash_128 (header ++ body)) checksum) _ e in
      let (result, e2, k2) = >>=-ok (decompress cs h.method body h.uncompressed_size) _ k1 in
      (e1, check_length-ok h result out k2)

  Decoded-Genuine : (src out rest : List ℕ) → Decoded cs src out rest → Genuine cs src out rest
  Decoded-Genuine src out rest d =
      let fields = parse_header-Fields d.header d.h d.parses in
      let (c_low, c_high, u_high) = fields.sizes in
      let (hashed, declared) = decode_body-ok d.checksum d.header d.body out d.h d.decodes in
      let total : length (d.checksum ++ (d.header ++ d.body)) ≡ 16 + d.h.compressed_size = omega (
        arith,
        length-append d.checksum (d.header ++ d.body),
        length-append d.header d.body,
        d.checksum_length,
        d.header_length,
        d.body_length,
      ) in
      let (lo, hi) = check_hash-ok _ d.checksum hashed in
      record {
        frame = d.checksum ++ (d.header ++ d.body);
        splits = d.splits ∙ sym (shape d rest);
        has_header = omega arith;
        within_cap = omega arith;
        compressed_size =
            total
            ∙ ap (λ n. 16 + n) fields.c
            ∙ ap (λ f. 16 + from_le_bytes f)
                (sym (compressed_at d.checksum d.header d.body d.checksum_length d.header_length));
        uncompressed_size =
            declared
            ∙ fields.u
            ∙ ap from_le_bytes (
                sym (uncompressed_at d.checksum d.header d.body d.checksum_length d.header_length));
        out_within_cap = omega arith;
        checked =
            rw
              (
                after_checksum d.checksum d.header d.body d.checksum_length d.header_length,
                low_half d.checksum d.header d.body d.checksum_length d.header_length,
                high_half d.checksum d.header d.body d.checksum_length d.header_length,
              )
              (lo, hi);
        method = (
          d.h.method,
          ap method_of (after_checksum d.checksum d.header d.body d.checksum_length d.header_length)
              ∙ method_of-append d.header d.body (omega (arith, d.header_length))
              ∙ fields.m,
        );
        alone = λ more.
            ap (decode_frame cs) (shape d more)
            ∙ decode_frame_at cs d.checksum d.header d.body more d.h d.checksum_length
                d.header_length d.parses d.body_length
            ∙ rw d.decodes refl;
      }
    where
      shape :
          (d : Decoded cs src out rest) (more : List ℕ)
          → (d.checksum ++ (d.header ++ d.body)) ++ more
            ≡ d.checksum ++ (d.header ++ (d.body ++ more))
      shape d more =
          append_assoc d.checksum (d.header ++ d.body) more
          ∙ ap (λ x. d.checksum ++ x) (append_assoc d.header d.body more)

  -- `decode_frame` on any bytes, with any hash and codecs: where it returns data, the stream starts
  -- with one whole frame, and the source is left right behind it. The frame and the data keep within
  -- the cap of 64 MiB, have the sizes that the header declares, and the checksum is the hash of the
  -- header and the body; and the frame decodes to the same data in front of any other bytes.
  pub decode_frame-Genuine :
      (src out rest : List ℕ) → decode_frame cs src ≡ ok (out, rest) → Genuine cs src out rest
  decode_frame-Genuine src out rest e =
      Decoded-Genuine src out rest (decode_frame-Decoded cs src out rest e)
