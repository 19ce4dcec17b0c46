-- ===== src/Lib.antt =====
-- compact-core: the portable compression core of crates/compact-core.
--
-- Byte slices and vectors are lists of native numbers, with the range of a machine integer stated
-- as a hypothesis (IsByte, IsU32, IsU64, IsI64); `Result` and `CompactError` are those of lib.rs, and
-- `usize` has 64 bits. Capacity hints and buffers have no counterpart.
--
--   Common      shared names: tests, lists, little-endian bytes, integers, laws of bits, `Result`
--   Primitives  crates/compact-core/src/primitives, one module for each file:
--     Varint    varint.rs; `encode_value` is the loop over one integer, `decode_loop` and `read_loop`
--               are the loops of `decode_u64` and `read_u64`
--     Zigzag    zigzag.rs; Delta  delta.rs; Rle  rle.rs; Bitmap  bitmap.rs; Bitpack  bitpack.rs
--   Pipeline    pipeline/delta_varint.rs: values to deltas to varint bytes
--   Config      the configuration types of lib.rs and `EncodeConfig::validate`
--   Framing     framing/mod.rs and primitives/crc32.rs: the v1 envelope round a codec's payload
--   Codecs      codecs/mod.rs: which codec a configuration runs
--   Api         the framed entry points of lib.rs, which compose the three above
--   Statistics  statistics.rs: the statistics of a column, as values and as bytes
--   Schema      schema/mod.rs: the columns that CMP2 and CMP3 accept, and the codecs they run
--   Evolution   schema/evolution.rs: revisions of a schema and the plan to read old rows; JSON values
--               and maps are a parameter with the operations of serde_json that the code calls
--   Cmp3.Metadata  format/v3.rs: the header and the metadata record of a column chunk
--   Cmp3.Cells, Cmp3.Boolean, Cmp3.Numeric, Cmp3.Strings  codecs/v3: Cells has what the columns
--               share, the loop over the rows and the validity bitmap; the rows are a parameter with
--               their `get`. Values is about the codecs of one kind of column, RoundTrip about columns
--   Streaming   streaming/options.rs and metadata.rs; Streaming.Lines and Streaming.Writer are
--               writer.rs, with the bytes written in a `Vec`; Streaming.Snapshot is snapshot.rs and
--               Streaming.Append the recovery of append.rs: Record and Accepted are about one frame,
--               Scan about the loop and Stream about the whole. An error ends the use of a writer.
--               The encoding of a row group (io/mod.rs) is a parameter
--   Search.Postings  search/postings.rs: the encoder and the validators; Decode has the readers. A
--               reader returns its cursor with its value. Skips and Index are about the skip table,
--               RoundTrip about the sections, Seek about the search of a document,
--               Payload about the whole
--   Search.Dictionary  search/dictionary.rs: the encoder; Read has the readers, Entries is
--               about the section of entries and Lookup about the whole. A `str` is its bytes
--   Search.Query  search/query.rs: Conjunction is about and_doc_ids, Ranking about
--               top_k_by_term_frequency
--   Cursor      reading integers and sections at a cursor, which the decoders share
--
-- Loops are structural recursions on the input. The varint loops over one integer recur on its
-- accessibility under `<`, so they need no fuel. `encode_loop` of RLE has a round for each input
-- byte, which is enough since each round takes one at least.
--
-- The CRC32 of a payload is computed by the dependency crc32fast: `hash` is a parameter, and the
-- theorems assume of it that its value has 32 bits.
--
-- The scores of a query count positions in memory and stay below 2^64, so they are added without a
-- bound.
--
-- The search for a name in a hash set or map of the source is a search in a list here.
--
-- The loop that reads a skip table has a round for each byte, and a round moves the cursor.
-- The scan of an append stream has a round for each byte as well, and a round moves the cursor by 18
-- bytes at least, so the rounds are enough.
--
-- Not modelled: the CMP4 format and the files (format/v4.rs, io), the reader and rolling
-- (streaming/reader.rs, rolling.rs), what writes and replays an append stream (append.rs), the
-- reading of lines (streaming/mod.rs), the storage tools and the thread pool (storage, parallel),
-- serde parsing, and the crates compact-cli and compact-ffi.
pub mod Common
pub mod Primitives
pub mod Cursor
pub mod Pipeline
pub mod Config
pub mod Framing
pub mod Codecs
pub mod Api
pub mod Statistics
pub mod Schema
pub mod Evolution
pub mod Cmp3
pub mod Streaming
pub mod Search
