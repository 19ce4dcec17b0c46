-- ===== src/Primitives.antt =====
-- crates/compact-core/src/primitives: the building blocks, one module for each file.
pub mod Varint
pub mod Zigzag
pub mod Bitmap
pub mod Bitpack
pub mod Delta
pub mod Rle
