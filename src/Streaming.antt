-- ===== src/Streaming.antt =====
-- crates/compact-core/src/streaming: the CMP2 block stream. This file has options.rs and metadata.rs.
pub mod Lines
pub mod Writer
pub mod Snapshot
pub mod Append
use compact_core.Common.{
  ℕ, ◌*◌, List, [], ◌∷◌, not, ◌==◌, Result, ok, ◌>>=◌, ◌>>◌, ensure, invalid_input,
}

-- limits.rs
abbrev pub max_stream_blocks : ℕ
max_stream_blocks = 1000000

abbrev pub block_magic_v1 : List ℕ
block_magic_v1 = b'B' ∷ b'L' ∷ b'K' ∷ b'1' ∷ []

abbrev pub index_magic_v1 : List ℕ
index_magic_v1 = b'I' ∷ b'D' ∷ b'X' ∷ b'1' ∷ []

pub record BlockOptions : Type 0 where
  pub max_rows_per_block : ℕ
  pub max_uncompressed_bytes_per_block : ℕ

unfoldable pub validate : BlockOptions → Result BlockOptions
validate options = do
  ensure (not (options.max_rows_per_block == 0))
      (invalid_input "max rows per block must be greater than zero")
  ensure (not (options.max_uncompressed_bytes_per_block == 0))
      (invalid_input "max uncompressed bytes per block must be greater than zero")
  ok options

pub record BlockMetadata : Type 0 where
  pub block_index : ℕ
  pub encoded_offset : ℕ
  pub row_count : ℕ
  pub uncompressed_size : ℕ
  pub compressed_size : ℕ
  pub checksum : ℕ
