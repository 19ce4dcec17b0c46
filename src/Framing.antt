-- ===== src/Framing.antt =====
-- crates/compact-core/src/framing/mod.rs and primitives/crc32.rs: the v1 frame. The checksum is
-- `crc32fast::hash`, a dependency, and a parameter here.
pub mod Parts
pub mod Exact
pub mod Sealed
mod Tests
use compact_core.Common.{
  ℕ, ◌+◌, ◌^◌, List, [], ◌∷◌, ◌++◌, Bool, not, ltb, ◌==◌, if◌then◌else◌, length, get_or, take, drop,
  bytes_eq, to_le_bytes, from_le_bytes, Result, ok, err, ◌>>=◌, ◌>>◌, ensure, invalid_input,
  unsupported,
}
use compact_core.Config.{Codec, rle, delta_varint_u64, column_block, huffman, lz77}

-- lib.rs: `MAGIC_V1` is `*b"CMP1"`.
abbrev pub magic_v1 : List ℕ
magic_v1 = b'C' ∷ b'M' ∷ b'P' ∷ b'1' ∷ []

abbrev pub version_v1 : ℕ
version_v1 = 1

-- MAGIC_LEN + VERSION_LEN + CODEC_LEN + PAYLOAD_LEN_LEN + CHECKSUM_LEN
abbrev pub header_len : ℕ
header_len = 4 + 1 + 1 + 8 + 4

pub record Frame : Type 0 where
  pub codec : Codec
  pub payload : List ℕ

unfoldable pub codec_to_id : Codec → ℕ
codec_to_id rle = 0x01
codec_to_id delta_varint_u64 = 0x02
codec_to_id column_block = 0x10
codec_to_id huffman = 0x03
codec_to_id lz77 = 0x04

unfoldable pub id_to_codec : ℕ → Result Codec
id_to_codec id =
    if id == 0x01
    then ok rle
    else if id == 0x02
    then ok delta_varint_u64
    else if id == 0x10
    then ok column_block
    else if id == 0x03
    then ok huffman
    else (if id == 0x04 then ok lz77 else err (unsupported "codec id"))

module _ (hash : List ℕ → ℕ) where
  unfoldable pub checksum : List ℕ → ℕ
  checksum bytes = hash bytes

  unfoldable pub verify : List ℕ → ℕ → Bool
  unfolding checksum
  verify bytes expected = checksum bytes == expected

  unfoldable pub encode_v1 : Codec → List ℕ → List ℕ
  unfolding checksum codec_to_id
  encode_v1 codec payload =
      magic_v1
      ++ (version_v1
          ∷ codec_to_id codec
          ∷ (to_le_bytes 8 (length payload) ++ (to_le_bytes 4 (checksum payload) ++ payload)))

  -- `data[a..b]` is `take (b - a) (drop a data)`. `usize::try_from` keeps every u64, as `usize` has
  -- 64 bits.
  unfoldable pub decode_v1 : List ℕ → Result Frame
  unfolding verify
  decode_v1 bytes = do
    ensure (not (ltb (length bytes) header_len)) (invalid_input "frame header is truncated")
    ensure (bytes_eq (take 4 bytes) magic_v1) (invalid_input "invalid frame magic")
    ensure (get_or bytes 4 0 == version_v1) (unsupported "frame version")
    codec ← id_to_codec (get_or bytes 5 0)
    let payload_len = from_le_bytes (take 8 (drop 6 bytes))
    let expected_checksum = from_le_bytes (take 4 (drop 14 bytes))
    ensure (ltb (header_len + payload_len) (2 ^ 64)) (invalid_input "frame payload length overflow")
    ensure (length bytes == header_len + payload_len)
        (invalid_input "frame payload length does not match input")
    let payload = take payload_len (drop header_len bytes)
    ensure (verify payload expected_checksum) (invalid_input "frame checksum mismatch")
    ok (record { codec = codec; payload = payload })
