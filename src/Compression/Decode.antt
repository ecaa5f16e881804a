-- ===== src/Compression/Decode.antt =====
-- What decoding a frame does, on a stream whose parts are known and on any stream.
use st_clickhouse_lib.Common.{
  ℕ, ◌-◌, ◌≡◌, refl, ap, ◌∙◌, List, ◌++◌, Result, ok, ◌>>=◌, length, >>=-ok,
}
use st_clickhouse_lib.Error.{Error}
use st_clickhouse_lib.Wire.Read.{read_exact}
use st_clickhouse_lib.Wire.Exact.{read_exact_at, read_exact-ok}
use st_clickhouse_lib.Compression.Frame.{
  Codecs, FrameHeader, parse_header, decode_body, decode_frame,
}

abbrev Step : Type 0
Step = Result (List ℕ × List ℕ) Error

ok_pair : {a b x y : List ℕ} → Path Step (ok (a, x)) (ok (b, y)) → (a ≡ b) × (x ≡ y)
ok_pair h = (cc, cc)

module _ (cs : Codecs) where
  -- The whole frame in front of the stream.
  pub decode_frame_at :
      (checksum header body rest : List ℕ) (h : FrameHeader)
      → length checksum ≡ 16
      → length header ≡ 9
      → parse_header header ≡ ok h
      → length body ≡ h.compressed_size - 9
      → decode_frame cs (checksum ++ (header ++ (body ++ rest)))
        ≡ (decode_body cs checksum header h body >>= λ out. ok (out, rest))
  unfolding decode_frame
  decode_frame_at checksum header body rest h c k p b =
      rw
        (
          read_exact_at 16 checksum (header ++ (body ++ rest)) c,
          read_exact_at 9 header (body ++ rest) k,
          p,
          read_exact_at (h.compressed_size - 9) body rest b,
        )
        refl

  -- The parts of a frame that was decoded.
  pub record Decoded (src out rest : List ℕ) : Type 0 where
    pub checksum : List ℕ
    pub header : List ℕ
    pub body : List ℕ
    pub h : FrameHeader
    pub splits : src ≡ checksum ++ (header ++ (body ++ rest))
    pub checksum_length : length checksum ≡ 16
    pub header_length : length header ≡ 9
    pub parses : parse_header header ≡ ok h
    pub body_length : length body ≡ h.compressed_size - 9
    pub decodes : decode_body cs checksum header h body ≡ ok out

  pub decode_frame-Decoded :
      (src out rest : List ℕ) → decode_frame cs src ≡ ok (out, rest) → Decoded src out rest
  unfolding decode_frame
  decode_frame-Decoded src out rest e =
      let ((checksum, src1), e1, k1) = >>=-ok (read_exact 16 src) _ e in
      let ((header, src2), e2, k2) = >>=-ok (read_exact 9 src1) _ k1 in
      let (h, e3, k3) = >>=-ok (parse_header header) _ k2 in
      let ((body, src3), e4, k4) = >>=-ok (read_exact (h.compressed_size - 9) src2) _ k3 in
      let (result, e5, k5) = >>=-ok (decode_body cs checksum header h body) _ k4 in
      let (s1, l1) = read_exact-ok 16 src checksum src1 e1 in
      let (s2, l2) = read_exact-ok 9 src1 header src2 e2 in
      let (s3, l3) = read_exact-ok _ src2 body src3 e4 in
      let (same, left) = ok_pair k5 in
      record {
        checksum = checksum;
        header = header;
        body = body;
        h = h;
        splits =
            s1
            ∙ ap (λ x. checksum ++ x) (s2 ∙ ap (λ x. header ++ x) (s3 ∙ ap (λ x. body ++ x) left));
        checksum_length = l1;
        header_length = l2;
        parses = e3;
        body_length = l3;
        decodes = e5 ∙ ap ok same;
      }
