-- ===== src/Api/Mismatch.antt =====
-- A frame of one codec decoded under the configuration of another.
use compact_core.Common.{ℕ, ◌+◌, ◌^◌, ◌<◌, ◌≡◌, ◌≢◌, arith, List, length, IsU32, ok, err, false}
use compact_core.Config.{Codec, EncodeConfig, validate}
use compact_core.Framing.{encode_v1}
use compact_core.Framing.Exact.{decode_v1-encode_v1}
use compact_core.Api.{decode_bytes_frame, decode_u64_frame, codec_eq, codec_mismatch}

codec_eq-ne : (a b : Codec) → a ≢ b → codec_eq a b ≡ false
codec_eq-ne a b ne = ground arith

-- Both framed decoders refuse, with the mismatch error, every well-formed frame whose codec is not
-- the one of the (valid) configuration, before they look at the payload.
pub decode_frame_mismatch :
    (hash : List ℕ → ℕ) (c : EncodeConfig) (codec : Codec) (payload : List ℕ)
    → validate c ≡ ok tt
    → codec ≢ c.codec
    → 18 + length payload < 2 ^ 64
    → IsU32 (hash payload)
    → (decode_bytes_frame hash c (encode_v1 hash codec payload) ≡ err codec_mismatch)
      × (decode_u64_frame hash c (encode_v1 hash codec payload) ≡ err codec_mismatch)
unfolding decode_bytes_frame decode_u64_frame
decode_frame_mismatch hash c codec payload valid ne fits word =
    let e = decode_v1-encode_v1 hash codec payload fits word in
    let differ = codec_eq-ne codec c.codec ne in (rw (valid, e, differ), rw (valid, e, differ))
