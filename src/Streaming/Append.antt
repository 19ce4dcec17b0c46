-- ===== src/Streaming/Append.antt =====
-- crates/compact-core/src/streaming/append.rs: recovery of an append stream, whose tail may be torn.
pub mod Payload
pub mod Record
pub mod Accepted
pub mod Scan
pub mod Totals
pub mod Header
pub mod Stream
mod Tests
use compact_core.Common.{
  ℕ, zero, suc, ◌+◌, ◌*◌, List, [], ◌∷◌, ◌++◌, Bool, true, false, not, ◌&&◌, ltb, leb, ◌==◌,
  if◌then◌else◌, length, get_or, take, drop, bytes_eq, from_le_bytes, Result, ok, err, ◌>>=◌, ◌>>◌,
  ensure, CompactError, invalid_input,
}
use compact_core.Config.{Codec, rle, delta_varint_u64, column_block, huffman, lz77}
use compact_core.Cursor.{section_at, number_at}
use compact_core.Framing.{magic_v1, checksum, decode_v1}
use compact_core.Primitives.Delta.{checked_add, ok_or}
use compact_core.Streaming.{BlockMetadata, max_stream_blocks, block_magic_v1}

-- limits.rs
abbrev pub max_encoded_block_bytes : ℕ
max_encoded_block_bytes = 256 * 1024 * 1024

abbrev pub stream_header_len : ℕ
stream_header_len = 4 + 1 + 1 + 4

abbrev pub frame_header_len : ℕ
frame_header_len = 4 + 1 + 1 + 8 + 4

pub record AppendRecovery : Type 0 where
  pub valid_len : ℕ
  pub blocks : List BlockMetadata
  pub total_rows : ℕ
  pub total_uncompressed_size : ℕ
  pub total_compressed_size : ℕ
  pub truncated_or_corrupt_tail : Bool

pub record AppendBlockPayload : Type 0 where
  pub block_index : ℕ
  pub first_row_index : ℕ
  pub row_count : ℕ
  pub raw_size : ℕ

abbrev pub length_overflow : CompactError
length_overflow = invalid_input "append block length overflow"

abbrev pub truncated : CompactError
truncated = invalid_input "append block is truncated"

unfoldable pub parse_append_block_payload : List ℕ → Result AppendBlockPayload
unfolding section_at number_at
parse_append_block_payload payload = do
  (magic, c1) ← section_at length_overflow payload 0 4 truncated
  ensure (bytes_eq magic block_magic_v1) (invalid_input "invalid block magic")
  (block_index, c2) ← number_at length_overflow 8 payload c1 truncated
  (first_row_index, c3) ← number_at length_overflow 8 payload c2 truncated
  (row_count, c4) ← number_at length_overflow 8 payload c3 truncated
  (raw_size, c5) ← number_at length_overflow 8 payload c4 truncated
  (column_block_len, c6) ← number_at length_overflow 8 payload c5 truncated
  (column_bytes, c7) ← section_at length_overflow payload c6 column_block_len truncated
  ensure (c7 == length payload) (invalid_input "block payload has trailing bytes")
  ok (record {
    block_index = block_index;
    first_row_index = first_row_index;
    row_count = row_count;
    raw_size = raw_size;
  })

-- `decoded.codec == Codec::ColumnBlock`
abbrev pub is_column_block : Codec → Bool
is_column_block column_block = true
is_column_block codec = false

abbrev pub index_overflow : CompactError
index_overflow = invalid_input "append block index overflow"

abbrev pub rows_overflow : CompactError
rows_overflow = invalid_input "append row count overflow"

abbrev pub offset_overflow : CompactError
offset_overflow = invalid_input "append offset overflow"

abbrev pub raw_overflow : CompactError
raw_overflow = invalid_input "append uncompressed size overflow"

abbrev pub encoded_overflow : CompactError
encoded_overflow = invalid_input "append compressed size overflow"

-- What the model returns when its rounds are used up.
abbrev out_of_rounds : CompactError
out_of_rounds = invalid_input "out of rounds"

-- Any reason to end the scan at a record.
abbrev pub torn : CompactError
torn = invalid_input "torn"

module _ (hash : List ℕ → ℕ) where
  -- The record at the cursor, behind `index` blocks with `rows` rows; an error is a torn record.
  unfoldable pub next_record : List ℕ → (cursor index rows : ℕ) → Result BlockMetadata
  unfolding parse_append_block_payload checksum
  next_record bytes cursor index rows = do
    let header = take frame_header_len (drop cursor bytes)
    ensure (leb (cursor + frame_header_len) (length bytes)) torn
    ensure (bytes_eq (take 4 header) magic_v1) torn
    let payload_len = from_le_bytes (take 8 (drop 6 header))
    ensure (leb payload_len max_encoded_block_bytes && ltb index max_stream_blocks) torn
    let record_len = frame_header_len + payload_len
    ensure (leb (cursor + record_len) (length bytes)) torn
    decoded ← decode_v1 hash (take record_len (drop cursor bytes))
    ensure (is_column_block decoded.codec) torn
    parsed ← parse_append_block_payload decoded.payload
    ensure (parsed.block_index == index && parsed.first_row_index == rows) torn
    ok (record {
      block_index = parsed.block_index;
      encoded_offset = cursor;
      row_count = parsed.row_count;
      uncompressed_size = parsed.raw_size;
      compressed_size = record_len;
      checksum = checksum hash decoded.payload;
    })

  -- The `while` loop, with at most `rounds` rounds: the blocks, the cursor and whether a record was
  -- torn. The index of a block is the number of blocks before it. A round that is missing is an error
  -- of its own; `recover_blocks` gives more rounds than a stream can take.
  unfoldable pub scan :
      ℕ → List ℕ → (cursor index rows : ℕ) → Result (List BlockMetadata × ℕ × Bool)
  unfolding next_record
  scan zero bytes cursor index rows =
      if ltb cursor (length bytes) then err out_of_rounds else ok ([], cursor, false)
  scan (suc rounds) bytes cursor index rows = elim (ltb cursor (length bytes)) [
    | false ↦ ok ([], cursor, false)
    | true ↦ elim (next_record bytes cursor index rows) [
      | err failure ↦ ok ([], cursor, true)
      | ok block ↦ (do
        next_index ← ok_or (checked_add index 1) index_overflow
        next_rows ← ok_or (checked_add rows block.row_count) rows_overflow
        next ← ok_or (checked_add cursor block.compressed_size) offset_overflow
        (blocks, end, broken) ← scan rounds bytes next next_index next_rows
        ok (block ∷ blocks, end, broken))
    ]
  ]

-- `checked_total`, from `total` on.
unfoldable pub checked_total :
    (BlockMetadata → ℕ) → CompactError → ℕ → List BlockMetadata → Result ℕ
checked_total value failure total [] = ok total
checked_total value failure total (block ∷ blocks) = do
  sum ← ok_or (checked_add total (value block)) failure
  checked_total value failure sum blocks

abbrev pub empty_recovery : Bool → AppendRecovery
empty_recovery torn_tail = record {
  valid_len = 0;
  blocks = [];
  total_rows = 0;
  total_uncompressed_size = 0;
  total_compressed_size = 0;
  truncated_or_corrupt_tail = torn_tail;
}

-- `MAGIC_V2`, `VERSION_V2`, the flags and the length of the extension.
abbrev pub has_stream_header : List ℕ → Bool
has_stream_header bytes =
    bytes_eq (take 4 bytes) (b'C' ∷ b'M' ∷ b'P' ∷ b'2' ∷ [])
    && (get_or bytes 4 0 == 2
        && (get_or bytes 5 0 == 0 && from_le_bytes (take 4 (drop 6 bytes)) == 0))

module _ (hash : List ℕ → ℕ) where
  -- The scan with its totals.
  unfoldable pub recover_blocks : List ℕ → Result AppendRecovery
  unfolding scan checked_total
  recover_blocks bytes = do
    (blocks, cursor, broken) ← scan hash (length bytes) bytes stream_header_len 0 0
    total_rows ← checked_total (λ b. b.row_count) rows_overflow 0 blocks
    total_uncompressed_size ← checked_total (λ b. b.uncompressed_size) raw_overflow 0 blocks
    total_compressed_size ← checked_total (λ b. b.compressed_size) encoded_overflow 0 blocks
    ok (record {
      valid_len = cursor;
      blocks = blocks;
      total_rows = total_rows;
      total_uncompressed_size = total_uncompressed_size;
      total_compressed_size = total_compressed_size;
      truncated_or_corrupt_tail = broken;
    })

  unfoldable pub recover_append_stream : List ℕ → Result AppendRecovery
  unfolding recover_blocks
  recover_append_stream bytes =
      if length bytes == 0
      then ok (empty_recovery false)
      else if ltb (length bytes) stream_header_len
      then ok (empty_recovery true)
      else if has_stream_header bytes
      then recover_blocks bytes
      else ok (empty_recovery true)
