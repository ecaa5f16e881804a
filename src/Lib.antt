-- ===== src/Lib.antt =====
-- st-clickhouse-lib: a ClickHouse client over the native TCP protocol. This library models the
-- program's byte-level core, which decides what is read from the server and where the next packet
-- starts.
--
-- Parts, and the files that model them (paths of the program are from the repository's root):
--
-- Common: lists, options, results, bytes and bits that the other modules share.
-- Error: the errors of src/error.rs. A message is a template with its arguments, not the rendered
--   text (`Error.Display`); an I/O error is its kind. `Error.Classify` has the predicates that decide what is retried
--   and which connection is thrown away.
-- Limits: src/limits.rs. `Limits.Caps` has the `checked_*` helpers, `Limits.Budget` the response
--   budget.
-- Wire: shared/wire.rs. A parser over `&[u8]` with a `&mut usize` position is a `Cursor`: a
--   function from the buffer and the position to `done value position`, `fail error position` or
--   `stuck`, where no fuel is left. A `Read` is the list of the bytes it still delivers
--   (`Wire.Read`), a `Write` or a `Vec<u8>` the list of the bytes written (`Wire.Write`).
--   `Wire.Source` is `Read` as an interface, for the readers that are wrapped around one another.
-- ColumnType and TypeParser: shared/type_parser.rs. A type's text is a list of bytes;
--   `TypeParser.Text` has what the parser uses of the standard library's `str`.
-- Skip: shared/skip_column.rs. The functions that recur into columns take a `Skipper`, the record
--   of the three recursive functions (`column`, `prefix`, `body`), so each is written once and
--   `Skip.Dispatch.skipper` ties the knot.
-- Chunked: src/sync/chunked.rs, and the negotiation of src/pool.rs. `Chunked.Framing.Framed` says
--   which payload a stream of chunks stands for.
-- Compression: src/sync/compression/mod.rs, and the frames of src/compression/mod.rs. The codecs and
--   the hash are a record `Codecs` that every definition takes, with `CodecLaws` for what a round
--   trip relies on. `Compression.Reader` is `DecompressingReader`, over any source that keeps the
--   laws of `Wire.Source`, and is such a source itself.
-- Stream: `StreamWrapper` of src/pool.rs, the async transport. The socket is the list of what its
--   polls bring: nothing yet, an error, or bytes. A poll maps the wrapper to its answer and the wrapper
--   that is polled next. `Stream.Raw` is the transport without chunks, `Stream.Framed` with chunks.
-- Block: shared/block.rs and shared/block_writer.rs. `Block.Context` is the reader over a column's
--   bytes; what a column's type makes of them is a parameter of the lookups.
-- Revision: shared/protocol_revision.rs.
-- Handshake: src/sync/protocol/handshake.rs and shared/ssh_auth.rs. `Handshake.Hello` reads the
--   server's hello by the negotiated revision, and `Handshake.RoundTrip` has the server's side of it.
--   The signer of an SSH key is a parameter. `Wire.Reading` relates readers of a stream to the bytes
--   that they read back.
-- Packet: shared/packet.rs, the codes of the server's packets.
-- Query: shared/parameters.rs, the parameters of a query and how their values are quoted.
--   `Query.Literal` has the rules by which a literal and the field in it are read.
-- Response: src/sync/protocol/response.rs and response_packets.rs, where the whole response is in one
--   buffer. `Response.Columns` and `Response.Blocks` parse blocks, `Response.LowCardinality` writes
--   dictionaries out, `Response.Exceptions` joins a chain of exceptions, and `Response.Packets` is the
--   loop over the packets. `Wire.Parses` relates code over a buffer to the bytes that it reads back.
-- Pool: src/pool.rs: the addresses with their circuit breaker, and the slots with the guards that
--   hold them. What other tasks do to the breaker between the locks that one connect takes is in
--   `Pool.Connect.Attempts`.
--
-- How they interact: Response parses packets with Wire, skips columns with Skip and types with
-- TypeParser, and reads back what Block writes; Skip parses with Wire, dispatches on the types of TypeParser and checks every
-- server-given length with Limits; Chunked hands Wire the stream it reads, with the caps of Limits;
-- Compression reads its frames from a source, which may be the reader of Chunked, and charges the
-- budget of Limits; Stream takes the same chunks apart as Chunked, over polls; Pool negotiates as
-- Chunked does and asks Error which failures break a connection.
--
-- Numbers: a `usize` and a `u64` are natural numbers below 2^64; the additions and products that the
-- code checks are `checked_add` and `checked_mul`, and the shifts and masks of the varint code keep
-- their wrap-around. A 64-bit target is assumed.
--
-- Bounds and fuel: `parse_varint` and `read_varint` run eleven rounds, since the shift passes 63 in
-- the eleventh and that round always returns. The writers recur on the accessibility of the value.
-- The type parser has the code's own bound of 256 nested types as its fuel. A chunked reader gets
-- one round for each byte of its source and one more, and each round takes four bytes. The skipper
-- takes its fuel as an argument, one unit for each nested call: 265 for each byte of the buffer and
-- 266 more are enough, since a parsed name nests at most 256 types around those that a geo type
-- unfolds to, and every further name is read from the buffer. The decompressing reader has one round
-- for each frame that one read pulls, and a frame takes 25 bytes. A poll of a chunked stream takes four
-- bytes in each round but the last two, so the bytes that the socket is to bring and 7 are enough.
--
-- The loop over a response's packets has one round for each byte and one more, since a packet takes a
-- byte; the loops over block info and over dictionary entries likewise. An exception chain has the
-- code's own cap of 1000 as its fuel.
--
-- Not modelled: sockets, TLS, async runtimes, rendering of error texts, the columns' values, the
-- readers of blocks over a stream, the compression codecs, the async handshake, the clients'
-- response loops over sockets, the derive macro and the bindings.

pub mod Common
pub mod Error
pub mod Limits
pub mod Wire
pub mod ColumnType
pub mod TypeParser
pub mod Skip
pub mod Chunked
pub mod Stream
pub mod Compression
pub mod Pool
pub mod Block
pub mod Response
pub mod Revision
pub mod Handshake
pub mod Packet
pub mod Query
mod Tests
