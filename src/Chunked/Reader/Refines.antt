-- ===== src/Chunked/Reader/Refines.antt =====
-- The parsers read a chunked stream as if it were the plain bytes of its payload.
use st_clickhouse_lib.Common.{ℕ, ◌≤◌, ◌<◌, ◌≡◌, inl, List, [], ◌∷◌, ◌++◌, Result, ok, length, arith}
use st_clickhouse_lib.Error.{Error}
use st_clickhouse_lib.Wire.Read.{read_exact}
use st_clickhouse_lib.Wire.Source.{SourceLaws}
use st_clickhouse_lib.Wire.Source as Source
use st_clickhouse_lib.Wire.Source.Refines.{Simulates, read_all_loop-Simulates}
use st_clickhouse_lib.Chunked.Reader.{ChunkedReader, chunked_source, read_fully}
use st_clickhouse_lib.Chunked.Reader.Stream.{Holds, read-Delivers, read_end}

-- Bytes that are not empty have a first one.
chunk_Delivers :
    (out_len : ℕ) (payload bytes rest : List ℕ) (next : ChunkedReader)
    (result : Result (List ℕ × ChunkedReader) Error)
    → 0 < length bytes
    → length bytes ≤ out_len
    → result ≡ ok (bytes, next)
    → payload ≡ bytes ++ rest
    → Holds next rest
    → Source.Delivers Holds out_len payload result
chunk_Delivers out_len payload [] rest next result some within e splits held = absurd (omega arith)
chunk_Delivers out_len payload (b ∷ bs) rest next result some within e splits held = record {
  b = b;
  bs = bs;
  rest = rest;
  next = next;
  returns = e;
  splits = splits;
  within_buffer = within;
  stands = held;
}

pub chunked_laws : SourceLaws chunked_source Holds
chunked_laws = record {
  delivers = λ out_len r b payload h holds.
      let d = read-Delivers out_len r b payload h holds in
      chunk_Delivers out_len (b ∷ payload) d.bytes d.rest d.next _ d.some_bytes d.within_buffer
        d.returns d.splits d.holds;
  at_end = λ out_len r h holds. inl (read_end out_len r h holds);
}

-- A reader of chunks that frame `payload` behaves as the plain bytes of `payload`: reading exactly
-- `n` bytes returns the first `n` bytes of the payload and a reader of the rest, or fails with
-- `UnexpectedEof` where fewer are left.
pub read_fully-Simulates :
    (fuel n : ℕ) (r : ChunkedReader) (payload : List ℕ)
    → n ≤ fuel
    → Holds r payload
    → Simulates Holds (read_exact n payload) (read_fully fuel n r)
unfolding read_fully
read_fully-Simulates fuel n r payload h holds =
    read_all_loop-Simulates chunked_source Holds chunked_laws fuel n r payload h holds
