-- ===== src/Cmp3.antt =====
-- The CMP3 column format of crates/compact-core/src: the records of format/v3.rs and the column codecs
-- of codecs/v3.
pub mod Metadata
pub mod Cells
pub mod Boolean
pub mod Numeric
pub mod Strings
