-- ===== src/Tests/Chunked.antt =====
-- The theorems of the chunked transport at concrete streams.
use st_clickhouse_lib.Common.{
  ℕ, List, [], ◌∷◌, ◌++◌, ◌≡◌, refl, true, false, ok, ltb, if◌then◌else◌, arith,
}
use st_clickhouse_lib.Common.Bytes.{to_le_bytes}
use st_clickhouse_lib.TypeParser.Text.{codes}
use st_clickhouse_lib.Wire.Read.{read_exact}
use st_clickhouse_lib.Chunked.Negotiate.{
  ServerInfo, ChunkedNegotiation, choose_chunked_mode, negotiate_async,
  min_revision_with_chunked_packets,
}
use st_clickhouse_lib.Chunked.Agreed.{
  Agreed, accepts, choose_chunked_mode-Agreed, negotiate_async_lem,
}
use st_clickhouse_lib.Chunked.Framing.{
  Framed, ends, boundary, chunk, write_chunked_packet, write_chunked_packet-Framed,
}
use st_clickhouse_lib.Chunked.Reader.{new_reader, read, read_fully}
use st_clickhouse_lib.Chunked.Reader.Stream.{Delivers, new_reader-Holds, read-Delivers}
use st_clickhouse_lib.Chunked.Reader.Refines.{read_fully-Simulates}
use st_clickhouse_lib.Wire.Source.Refines.{Simulates}
use st_clickhouse_lib.Chunked.Reader.Stream.{Holds}

write_chunked_packet-Framed_example :
    (frame : List ℕ) × Framed frame (5 ∷ 6 ∷ [])
    × (write_chunked_packet (5 ∷ 6 ∷ []) ≡ ok (frame ++ to_le_bytes 4 0))
    × Framed ((frame ++ to_le_bytes 4 0) ++ []) (5 ∷ 6 ∷ [])
write_chunked_packet-Framed_example =
    write_chunked_packet-Framed (5 ∷ 6 ∷ []) [] [] (omega arith) ends

-- A chunk of two bytes, an empty chunk, and a chunk of one byte.
abbrev wire : List ℕ
wire = 2 ∷ 0 ∷ 0 ∷ 0 ∷ 5 ∷ 6 ∷ 0 ∷ 0 ∷ 0 ∷ 0 ∷ 1 ∷ 0 ∷ 0 ∷ 0 ∷ 7 ∷ []

wire-Framed : Framed wire (5 ∷ 6 ∷ 7 ∷ [])
unfolding to_le_bytes
wire-Framed =
    chunk (5 ∷ 6 ∷ []) (boundary (chunk (7 ∷ []) ends (omega arith) (omega arith) refl refl) refl)
      (omega arith) (omega arith) refl refl

read-Delivers_example : Delivers 8 (5 ∷ 6 ∷ 7 ∷ []) (read 8 (new_reader wire))
read-Delivers_example =
    read-Delivers 8 (new_reader wire) 5 (6 ∷ 7 ∷ []) (omega arith)
      (new_reader-Holds wire (5 ∷ 6 ∷ 7 ∷ []) wire-Framed)

read_fully-Simulates_example :
    Simulates Holds (read_exact 3 (5 ∷ 6 ∷ 7 ∷ [])) (read_fully 3 3 (new_reader wire))
read_fully-Simulates_example =
    read_fully-Simulates 3 3 (new_reader wire) (5 ∷ 6 ∷ 7 ∷ []) (omega arith)
      (new_reader-Holds wire (5 ∷ 6 ∷ 7 ∷ []) wire-Framed)

choose_chunked_mode-Agreed_example :
    Agreed
      (codes "notchunked")
      (codes "chunked")
      (choose_chunked_mode (codes "notchunked") (codes "chunked") "send")
choose_chunked_mode-Agreed_example =
    choose_chunked_mode-Agreed (codes "notchunked") (codes "chunked") "send"

abbrev strict_server : ServerInfo
strict_server = record {
  negotiated_revision = 54470;
  proto_send_chunked_srv = codes "notchunked";
  proto_recv_chunked_srv = codes "chunked_optional";
}

negotiate_async_lem_example :
    (n : ChunkedNegotiation) × (negotiate_async strict_server ≡ ok n)
    × (if ltb 54470 min_revision_with_chunked_packets
        then ((n.send_chunked ≡ false) × (n.recv_chunked ≡ false))
        else ((accepts (codes "chunked_optional") n.send_chunked ≡ true)
            × (accepts (codes "notchunked") n.recv_chunked ≡ true)))
negotiate_async_lem_example = negotiate_async_lem strict_server
