-- ===== src/Config.antt =====
-- crates/compact-core/src/lib.rs: the configuration types and `EncodeConfig::validate`.
use compact_core.Common.{Result, ok, err, unsupported}

pub data ValueType : Type 0 where
  raw_bytes string u32 u64 i32 i64 : ValueType

pub data Transform : Type 0 where
  none delta zig_zag : Transform

pub data Codec : Type 0 where
  rle delta_varint_u64 column_block huffman lz77 : Codec

pub record EncodeConfig : Type 0 where
  pub value_type : ValueType
  pub transform : Transform
  pub codec : Codec

validate_parts : ValueType → Transform → Codec → Result (Unit {0})
validate_parts raw_bytes none rle = ok tt
validate_parts string none rle = ok tt
validate_parts u64 delta delta_varint_u64 = ok tt
validate_parts v t column_block = ok tt
validate_parts v t huffman = err (unsupported "huffman codec")
validate_parts v t lz77 = err (unsupported "lz77 codec")
validate_parts v t c = err (unsupported "codec configuration")

unfoldable pub validate : EncodeConfig → Result (Unit {0})
unfolding validate_parts
validate c = validate_parts c.value_type c.transform c.codec
