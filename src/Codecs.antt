-- ===== src/Codecs.antt =====
-- crates/compact-core/src/codecs/mod.rs.
use compact_core.Common.{ℕ, List, Result, ok, err, unsupported, ◌>>◌}
use compact_core.Config.{
  ValueType, raw_bytes, u64, Transform, none, delta, Codec, rle, delta_varint_u64, EncodeConfig,
  validate,
}
use compact_core.Primitives.Rle.{encode_rle, decode_rle}
use compact_core.Pipeline

-- The `match` on the three parts of the configuration, each with its one implemented combination.
abbrev byte_codec : {A : Type 0} → Result A → ValueType → Transform → Codec → Result A
byte_codec run raw_bytes none rle = run
byte_codec run v t c = err (unsupported "byte codec configuration")

abbrev u64_codec : {A : Type 0} → Result A → ValueType → Transform → Codec → Result A
u64_codec run u64 delta delta_varint_u64 = run
u64_codec run v t c = err (unsupported "u64 codec configuration")

unfoldable pub encode_bytes : EncodeConfig → List ℕ → Result (List ℕ)
encode_bytes c input = do
  validate c
  byte_codec (ok (encode_rle input)) c.value_type c.transform c.codec

unfoldable pub decode_bytes : EncodeConfig → List ℕ → Result (List ℕ)
decode_bytes c input = do validate c; byte_codec (decode_rle input) c.value_type c.transform c.codec

unfoldable pub encode_u64 : EncodeConfig → List ℕ → Result (List ℕ)
encode_u64 c input = do
  validate c
  u64_codec (Pipeline.encode_u64 input) c.value_type c.transform c.codec

unfoldable pub decode_u64 : EncodeConfig → List ℕ → Result (List ℕ)
decode_u64 c input = do
  validate c
  u64_codec (Pipeline.decode_u64 input) c.value_type c.transform c.codec
