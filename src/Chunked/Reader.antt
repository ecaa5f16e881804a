-- ===== src/Chunked/Reader.antt =====
-- `ChunkedReader` of src/sync/chunked.rs. The stream below is the list of the bytes still to come.
pub mod Stream
pub mod Refines
use st_clickhouse_lib.Common.{
  ℕ, zero, suc, ◌+◌, ◌-◌, ◌≤◌, ◌<◌, List, [], ◌∷◌, ◌++◌, Result, ok, err, ◌>>=◌, length, take, drop,
  min, ltb, leb, ◌==◌, if◌then◌else◌,
}
use st_clickhouse_lib.Common.Bytes.{from_le_bytes}
use st_clickhouse_lib.Error.{Error, io, invalid_data}
use st_clickhouse_lib.Limits.Caps.{max_chunk_len}
use st_clickhouse_lib.Wire.Read.{read_exact}
use st_clickhouse_lib.Wire.Source.{Source, read_all_loop}

pub record ChunkedReader : Type 0 where
  pub inner : List ℕ
  pub chunk : List ℕ
  pub pos : ℕ

unfoldable pub new_reader : List ℕ → ChunkedReader
new_reader inner = record { inner = inner; chunk = []; pos = 0 }

-- The body of a chunk of `len` bytes, `len` not 0.
unfoldable pub read_chunk_body : ℕ → List ℕ → Result ChunkedReader Error
read_chunk_body len src =
    if ltb max_chunk_len len
    then err (io invalid_data)
    else (read_exact len src >>= λ (body, rest).
        ok (record { inner = rest; chunk = body; pos = 0 }))

-- The loop over chunk headers, which skips empty chunks. Each round takes four bytes.
unfoldable pub read_next_chunk_loop : ℕ → List ℕ → Result ChunkedReader Error
unfolding read_chunk_body
read_next_chunk_loop zero src = err (io invalid_data)
read_next_chunk_loop (suc fuel) src = elim (read_exact 4 src) [
  | err e ↦ err e
  | ok (len_buf, rest) ↦
      let next = read_next_chunk_loop fuel rest in
      if from_le_bytes len_buf == 0 then next else read_chunk_body (from_le_bytes len_buf) rest
]

unfoldable pub read_next_chunk : ChunkedReader → Result ChunkedReader Error
unfolding read_next_chunk_loop
read_next_chunk r = read_next_chunk_loop (suc (length r.inner)) r.inner

-- What `read` takes out of the chunk at hand.
unfoldable pub serve : ℕ → ChunkedReader → List ℕ × ChunkedReader
serve out_len r =
    let n = min out_len (length r.chunk - r.pos) in
    (take n (drop r.pos r.chunk), record r { pos = r.pos + n })

-- `read` into a buffer of `out_len` bytes: the bytes read, and the reader behind them.
unfoldable pub read : ℕ → ChunkedReader → Result (List ℕ × ChunkedReader) Error
unfolding read_next_chunk serve
read out_len r =
    if out_len == 0
    then ok ([], r)
    else if leb (length r.chunk) r.pos
    then (read_next_chunk r >>= λ next. ok (serve out_len next))
    else ok (serve out_len r)

-- `ChunkedReader` as a source, and `Read::read_exact` over it.
abbrev pub chunked_source : Source ChunkedReader
chunked_source = record { read = read }

unfoldable pub read_fully : ℕ → ℕ → ChunkedReader → Result (List ℕ × ChunkedReader) Error
unfolding read_all_loop read
read_fully fuel n r = read_all_loop chunked_source fuel n r
