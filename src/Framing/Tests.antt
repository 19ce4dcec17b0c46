-- ===== src/Framing/Tests.antt =====
-- Runs with a toy checksum.
use compact_core.Common.{
  ℕ, ◌<◌, ◌^◌, ◌↔◌, arith, ◌≡◌, refl, List, [], ◌∷◌, ok, err, length, invalid_input, to_le_bytes,
  from_le_bytes, bytes_eq,
}
use compact_core.Config.{rle, delta_varint_u64}
use compact_core.Framing.{encode_v1, decode_v1, id_to_codec, Frame}
use compact_core.Framing.Exact.{decode_v1_iff}

abbrev count_hash : List ℕ → ℕ
count_hash bytes = length bytes

frame_layout :
    encode_v1 count_hash delta_varint_u64 (100 ∷ 1 ∷ 1 ∷ 28 ∷ [])
    ≡ b'C' ∷ b'M' ∷ b'P' ∷ b'1' ∷ 1 ∷ 2 ∷ 4 ∷ 0 ∷ 0 ∷ 0 ∷ 0 ∷ 0 ∷ 0 ∷ 0 ∷ 4 ∷ 0 ∷ 0 ∷ 0 ∷ 100 ∷ 1
      ∷ 1 ∷ 28 ∷ []
unfolding encode_v1 to_le_bytes
frame_layout = refl

frame_back :
    decode_v1 count_hash (encode_v1 count_hash rle (3 ∷ b'A' ∷ []))
    ≡ ok (record { codec = rle; payload = 3 ∷ b'A' ∷ [] })
unfolding encode_v1 decode_v1 id_to_codec to_le_bytes from_le_bytes bytes_eq
frame_back = refl

short_frame :
    decode_v1 count_hash (0 ∷ 0 ∷ 0 ∷ []) ≡ err (invalid_input "frame header is truncated")
unfolding decode_v1
short_frame = refl

abbrev small_frame : Frame
small_frame = record { codec = rle; payload = 3 ∷ b'A' ∷ [] }

abbrev small_bytes : List ℕ
small_bytes =
    b'C' ∷ b'M' ∷ b'P' ∷ b'1' ∷ 1 ∷ 1 ∷ 2 ∷ 0 ∷ 0 ∷ 0 ∷ 0 ∷ 0 ∷ 0 ∷ 0 ∷ 2 ∷ 0 ∷ 0 ∷ 0 ∷ 3 ∷ b'A'
    ∷ []

decode_v1_iff_example :
    (decode_v1 count_hash small_bytes ≡ ok small_frame)
    ↔ ((small_bytes ≡ encode_v1 count_hash rle (3 ∷ b'A' ∷ [])) × (length small_bytes < 2 ^ 64))
decode_v1_iff_example = decode_v1_iff count_hash small_bytes small_frame (omega arith) (omega arith)
