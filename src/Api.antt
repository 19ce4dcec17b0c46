-- ===== src/Api.antt =====
-- crates/compact-core/src/lib.rs: the framed entry points. `hash` is `crc32fast::hash`.
pub mod RoundTrip
pub mod Mismatch
mod Tests
use compact_core.Common.{
  ℕ, List, Bool, true, false, Result, ok, err, ◌>>=◌, ◌>>◌, ensure, invalid_input, CompactError,
}
use compact_core.Config.{
  Codec, rle, delta_varint_u64, column_block, huffman, lz77, EncodeConfig, validate,
}
use compact_core.Framing.{encode_v1, decode_v1}
use compact_core.Codecs

-- `actual == config.codec`, the derived equality.
abbrev codec_eq : Codec → Codec → Bool
codec_eq rle rle = true
codec_eq delta_varint_u64 delta_varint_u64 = true
codec_eq column_block column_block = true
codec_eq huffman huffman = true
codec_eq lz77 lz77 = true
codec_eq a b = false

abbrev pub codec_mismatch : CompactError
codec_mismatch = invalid_input "frame codec does not match requested config"

ensure_frame_codec : EncodeConfig → Codec → Result (Unit {0})
ensure_frame_codec c actual = ensure (codec_eq actual c.codec) codec_mismatch

module _ (hash : List ℕ → ℕ) where
  unfoldable pub encode_bytes_frame : EncodeConfig → List ℕ → Result (List ℕ)
  encode_bytes_frame c input = do
    validate c
    payload ← Codecs.encode_bytes c input
    ok (encode_v1 hash c.codec payload)

  unfoldable pub decode_bytes_frame : EncodeConfig → List ℕ → Result (List ℕ)
  unfolding ensure_frame_codec
  decode_bytes_frame c bytes = do
    validate c
    frame ← decode_v1 hash bytes
    ensure_frame_codec c frame.codec
    Codecs.decode_bytes c frame.payload

  unfoldable pub encode_u64_frame : EncodeConfig → List ℕ → Result (List ℕ)
  encode_u64_frame c values = do
    validate c
    payload ← Codecs.encode_u64 c values
    ok (encode_v1 hash c.codec payload)

  unfoldable pub decode_u64_frame : EncodeConfig → List ℕ → Result (List ℕ)
  unfolding ensure_frame_codec
  decode_u64_frame c bytes = do
    validate c
    frame ← decode_v1 hash bytes
    ensure_frame_codec c frame.codec
    Codecs.decode_u64 c frame.payload
