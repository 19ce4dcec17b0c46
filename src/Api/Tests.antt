-- ===== src/Api/Tests.antt =====
-- The source's frame tests with a toy checksum, and the theorems at concrete frames.
use compact_core.Common.{
  ℕ, ◌%◌, ◌^◌, ◌≡◌, ◌≢◌, refl, arith, List, [], ◌∷◌, length, IsU32, ok, err, ◌↔◌, unsupported,
}
use compact_core.Config.{validate, rle, delta_varint_u64, string, none}
use compact_core.Framing.{encode_v1}
use compact_core.Primitives.Rle.{encode_rle}
use compact_core.Api.{
  encode_bytes_frame, decode_bytes_frame, encode_u64_frame, decode_u64_frame, codec_mismatch,
}
use compact_core.Api.RoundTrip.{
  byte_config, u64_config, encode_bytes_frame_iff, decode_bytes_frame-encode_bytes_frame,
  decode_u64_frame-encode_u64_frame,
}
use compact_core.Api.Mismatch.{decode_frame_mismatch}
use compact_core.Codecs
use compact_core.Pipeline
use compact_core.Primitives.Varint
use compact_core.Primitives.Delta.{encode_delta_u64}

abbrev toy_hash : List ℕ → ℕ
toy_hash bytes = length bytes % 2 ^ 32

toy_hash-lt : (bytes : List ℕ) → IsU32 (toy_hash bytes)
toy_hash-lt bytes = omega arith

abbrev letters : List ℕ
letters = b'A' ∷ b'A' ∷ b'B' ∷ []

-- A configuration that `validate` lets through and no codec runs.
string_config_unsupported :
    Codecs.encode_bytes (record { value_type = string; transform = none; codec = rle }) letters
    ≡ err (unsupported "byte codec configuration")
unfolding Codecs.encode_bytes validate
string_config_unsupported = refl

encode_bytes_frame_iff_example :
    (encode_bytes_frame toy_hash byte_config letters
      ≡ ok (encode_v1 toy_hash rle (encode_rle letters)))
    ↔ ((byte_config ≡ byte_config)
        × (encode_v1 toy_hash rle (encode_rle letters)
            ≡ encode_v1 toy_hash rle (encode_rle letters)))
encode_bytes_frame_iff_example =
    encode_bytes_frame_iff toy_hash byte_config letters
      (encode_v1 toy_hash rle (encode_rle letters))

letters_frame :
    encode_bytes_frame toy_hash byte_config letters
    ≡ ok (encode_v1 toy_hash rle (2 ∷ b'A' ∷ 1 ∷ b'B' ∷ []))
unfolding encode_bytes_frame Codecs.encode_bytes validate encode_rle
letters_frame = refl

decode_bytes_frame-encode_bytes_frame_example :
    decode_bytes_frame toy_hash byte_config (encode_v1 toy_hash rle (2 ∷ b'A' ∷ 1 ∷ b'B' ∷ []))
    ≡ ok letters
decode_bytes_frame-encode_bytes_frame_example =
    decode_bytes_frame-encode_bytes_frame toy_hash byte_config letters
      (encode_v1 toy_hash rle (2 ∷ b'A' ∷ 1 ∷ b'B' ∷ [])) toy_hash-lt (omega arith) letters_frame

abbrev series : List ℕ
series = 100 ∷ 101 ∷ 102 ∷ 130 ∷ []

series_frame :
    encode_u64_frame toy_hash u64_config series
    ≡ ok (encode_v1 toy_hash delta_varint_u64 (100 ∷ 1 ∷ 1 ∷ 28 ∷ []))
unfolding encode_u64_frame Codecs.encode_u64 Pipeline.encode_u64 validate Varint.encode_u64
    encode_delta_u64
series_frame = refl

decode_u64_frame-encode_u64_frame_example :
    decode_u64_frame toy_hash u64_config
      (encode_v1 toy_hash delta_varint_u64 (100 ∷ 1 ∷ 1 ∷ 28 ∷ []))
    ≡ ok series
decode_u64_frame-encode_u64_frame_example =
    decode_u64_frame-encode_u64_frame toy_hash u64_config series
      (encode_v1 toy_hash delta_varint_u64 (100 ∷ 1 ∷ 1 ∷ 28 ∷ [])) toy_hash-lt (omega arith)
      (omega arith) series_frame

u64_config_valid : validate u64_config ≡ ok tt
unfolding validate
u64_config_valid = refl

codecs_differ : rle ≢ delta_varint_u64
codecs_differ = ground arith

decode_frame_mismatch_example :
    (decode_bytes_frame toy_hash u64_config (encode_v1 toy_hash rle letters) ≡ err codec_mismatch)
    × (decode_u64_frame toy_hash u64_config (encode_v1 toy_hash rle letters) ≡ err codec_mismatch)
decode_frame_mismatch_example =
    decode_frame_mismatch toy_hash u64_config rle letters u64_config_valid codecs_differ
      (omega arith) (omega arith)
