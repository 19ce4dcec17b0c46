-- ===== src/Streaming/Writer.antt =====
-- crates/compact-core/src/streaming/writer.rs. The bytes written are a `Vec`, whose writes do not fail.
-- The encoding of a row group is that of io/mod.rs, and a parameter here, as the hash of the frames is.
pub mod Consistent
mod Tests
use compact_core.Common.{
  ℕ, zero, suc, ◌+◌, ◌*◌, ◌^◌, List, [], ◌∷◌, ◌++◌, Bool, true, false, not, ◌||◌, ltb, leb, ◌==◌,
  if◌then◌else◌, length, to_le_bytes, Result, ok, err, ◌>>=◌, ◌>>◌, ensure, CompactError,
  invalid_input,
}
use compact_core.Config.{column_block}
use compact_core.Framing.{checksum, encode_v1}
use compact_core.Primitives.Delta.{checked_add, ok_or}
use compact_core.Streaming.{
  BlockOptions, validate, BlockMetadata, max_stream_blocks, block_magic_v1, index_magic_v1,
}
use compact_core.Streaming.Lines.{is_blank, normalize_jsonl_line}

abbrev pub file_header_len : ℕ
file_header_len = 4 + 1 + 1 + 4

-- `MAGIC_V2`, `VERSION_V2`, the flags and the length of the extension.
unfoldable pub stream_header : List ℕ
stream_header = b'C' ∷ b'M' ∷ b'P' ∷ b'2' ∷ 2 ∷ 0 ∷ to_le_bytes 4 0

pub record JsonlRowGroup : Type 0 where
  pub row_count : ℕ
  pub raw_bytes : ℕ
  pub payload : List ℕ

pub record RowGroupBuffer : Type 0 where
  pub text : List ℕ
  pub row_count : ℕ
  pub raw_bytes : ℕ

abbrev pub cleared : RowGroupBuffer
cleared = record { text = []; row_count = 0; raw_bytes = 0 }

abbrev pub push_line : List ℕ → RowGroupBuffer → RowGroupBuffer
push_line line b = record {
  text = b.text ++ line;
  row_count = b.row_count + 1;
  raw_bytes = b.raw_bytes + length line;
}

abbrev pub would_exceed : RowGroupBuffer → List ℕ → BlockOptions → Bool
would_exceed b line options =
    if b.row_count == 0
    then false
    else (ltb options.max_rows_per_block (b.row_count + 1)
        || ltb options.max_uncompressed_bytes_per_block (b.raw_bytes + length line))

abbrev pub reached_limit : RowGroupBuffer → BlockOptions → Bool
reached_limit b options =
    leb options.max_rows_per_block b.row_count
    || leb options.max_uncompressed_bytes_per_block b.raw_bytes

unfoldable pub encode_block_payload :
    (block_index first_row_index row_count raw_size : ℕ) → List ℕ → List ℕ
encode_block_payload block_index first_row_index row_count raw_size column_bytes =
    block_magic_v1
    ++ (to_le_bytes 8 block_index
        ++ (to_le_bytes 8 first_row_index
            ++ (to_le_bytes 8 row_count
                ++ (to_le_bytes 8 raw_size
                    ++ (to_le_bytes 8 (length column_bytes) ++ column_bytes)))))

abbrev entry_bytes : BlockMetadata → List ℕ
entry_bytes block =
    to_le_bytes 8 block.block_index
    ++ (to_le_bytes 8 block.encoded_offset
        ++ (to_le_bytes 8 block.row_count
            ++ (to_le_bytes 8 block.uncompressed_size
                ++ (to_le_bytes 8 block.compressed_size ++ to_le_bytes 4 block.checksum))))

abbrev index_entries : List BlockMetadata → List ℕ
index_entries [] = []
index_entries (block ∷ blocks) = entry_bytes block ++ index_entries blocks

unfoldable pub index_footer : List BlockMetadata → List ℕ
index_footer metadata =
    index_magic_v1 ++ (to_le_bytes 8 (length metadata) ++ index_entries metadata)

pub record JsonlBlockWriter : Type 0 where
  pub writer : List ℕ
  pub options : BlockOptions
  pub current : RowGroupBuffer
  pub blocks_written : ℕ
  pub rows_written : ℕ
  pub bytes_written : ℕ
  pub metadata : List BlockMetadata

-- `new_with_state` behind the header of a new stream.
abbrev pub started : BlockOptions → JsonlBlockWriter
started options = record {
  writer = stream_header;
  options = options;
  current = cleared;
  blocks_written = 0;
  rows_written = 0;
  bytes_written = file_header_len;
  metadata = [];
}

unfoldable pub new : BlockOptions → Result JsonlBlockWriter
unfolding validate stream_header
new options = do options' ← validate options; ok (started options')

module _ (hash : List ℕ → ℕ) (encode_row_group : List ℕ → Result JsonlRowGroup) where
  -- The framed block of an encoded row group, and what the index says of it.
  unfoldable pub block_payload : JsonlBlockWriter → JsonlRowGroup → List ℕ
  unfolding encode_block_payload
  block_payload w group =
      encode_block_payload w.blocks_written w.rows_written group.row_count group.raw_bytes
        group.payload

  unfoldable pub block_frame : JsonlBlockWriter → JsonlRowGroup → List ℕ
  unfolding block_payload encode_v1
  block_frame w group = encode_v1 hash column_block (block_payload w group)

  abbrev pub block_metadata : JsonlBlockWriter → JsonlRowGroup → BlockMetadata
  block_metadata w group = record {
    block_index = w.blocks_written;
    encoded_offset = w.bytes_written;
    row_count = group.row_count;
    uncompressed_size = group.raw_bytes;
    compressed_size = length (block_frame w group);
    checksum = checksum hash (block_payload w group);
  }

  abbrev pub with_block :
      JsonlBlockWriter → JsonlRowGroup → (blocks rows written : ℕ) → JsonlBlockWriter
  with_block w group blocks rows written = record {
    writer = w.writer ++ block_frame w group;
    options = w.options;
    current = cleared;
    blocks_written = blocks;
    rows_written = rows;
    bytes_written = written;
    metadata = w.metadata ++ block_metadata w group ∷ [];
  }

  -- What `flush_block` does with an encoded row group.
  unfoldable pub write_block : JsonlBlockWriter → JsonlRowGroup → Result JsonlBlockWriter
  unfolding block_frame block_payload checksum
  write_block w group = do
    blocks ← ok_or (checked_add w.blocks_written 1) (invalid_input "stream block count overflow")
    rows ←
        ok_or (checked_add w.rows_written group.row_count)
          (invalid_input "stream row count overflow")
    written ←
        ok_or (checked_add w.bytes_written (length (block_frame w group)))
          (invalid_input "stream byte count overflow")
    ok (with_block w group blocks rows written)

  unfoldable pub flush_block : JsonlBlockWriter → Result JsonlBlockWriter
  unfolding write_block
  flush_block w =
      let flushed = (do
        ensure (not (leb max_stream_blocks w.blocks_written))
            (invalid_input "stream block count exceeds configured limit")
        group ← encode_row_group w.current.text
        write_block w group) in
      if w.current.row_count == 0 then ok w else flushed

  abbrev pub with_line : List ℕ → JsonlBlockWriter → JsonlBlockWriter
  with_line line w = record {
    writer = w.writer;
    options = w.options;
    current = push_line line w.current;
    blocks_written = w.blocks_written;
    rows_written = w.rows_written;
    bytes_written = w.bytes_written;
    metadata = w.metadata;
  }

  -- The flush before a line that does not fit, and the flush behind a line that fills the block.
  abbrev pub make_room : List ℕ → JsonlBlockWriter → Result JsonlBlockWriter
  make_room line w = if would_exceed w.current line w.options then flush_block w else ok w

  abbrev pub flush_full : JsonlBlockWriter → Result JsonlBlockWriter
  flush_full w = if reached_limit w.current w.options then flush_block w else ok w

  unfoldable pub write_jsonl_line : JsonlBlockWriter → List ℕ → Result JsonlBlockWriter
  unfolding is_blank normalize_jsonl_line flush_block
  write_jsonl_line w line =
      let written = (do
        normal ← normalize_jsonl_line line
        ensure (leb (length normal) w.options.max_uncompressed_bytes_per_block)
            (invalid_input "jsonl row exceeds max uncompressed bytes per block")
        roomy ← make_room normal w
        flush_full (with_line normal roomy)) in
      if is_blank line then ok w else written

  -- The loop of a caller over its lines.
  unfoldable pub write_lines : JsonlBlockWriter → List (List ℕ) → Result JsonlBlockWriter
  unfolding write_jsonl_line
  write_lines w [] = ok w
  write_lines w (line ∷ lines) = do next ← write_jsonl_line w line; write_lines next lines

  unfoldable pub finish : JsonlBlockWriter → Result (List ℕ)
  unfolding flush_block index_footer
  finish w = do last ← flush_block w; ok (last.writer ++ index_footer last.metadata)

  unfoldable pub finish_without_footer : JsonlBlockWriter → Result (List ℕ)
  unfolding flush_block
  finish_without_footer w = do last ← flush_block w; ok last.writer
