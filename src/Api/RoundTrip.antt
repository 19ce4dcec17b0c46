-- ===== src/Api/RoundTrip.antt =====
-- Encoding and decoding under one configuration.
use compact_core.Common.{
  ℕ, ◌+◌, ◌^◌, ◌≤◌, ◌<◌, ◌≡◌, refl, sym, ap, ap₂, ◌∙◌, arith, List, length, All, IsU32, IsU64, ok,
  Result, >>=-eq-ok, ◌>>=◌, ◌↔◌,
}
use compact_core.Config.{EncodeConfig, validate, raw_bytes, u64, none, delta, rle, delta_varint_u64}
use compact_core.Framing.{encode_v1}
use compact_core.Framing.Exact.{decode_v1-encode_v1}
use compact_core.Codecs
use compact_core.Pipeline
use compact_core.Pipeline.RoundTrip.{encode_u64→decode_u64, length-encode_u64}
use compact_core.Primitives.Rle.{encode_rle, decode_rle, max_decoded_bytes}
use compact_core.Primitives.Rle.Decoder.{decode_rle-encode_rle}
use compact_core.Primitives.Rle.RoundTrip.{encode_rle-Runs}
use compact_core.Primitives.Rle.Runs.{Runs-length}
use compact_core.Api.{encode_bytes_frame, decode_bytes_frame, encode_u64_frame, decode_u64_frame}

-- The one configuration that the byte entry points run.
abbrev pub byte_config : EncodeConfig
byte_config = record { value_type = raw_bytes; transform = none; codec = rle }

abbrev pub u64_config : EncodeConfig
u64_config = record { value_type = u64; transform = delta; codec = delta_varint_u64 }

encode_bytes_ok :
    (c : EncodeConfig) (input payload : List ℕ)
    → Codecs.encode_bytes c input ≡ ok payload
    → (c ≡ byte_config) × (payload ≡ encode_rle input)
encode_bytes_ok c input payload h = unfold Codecs.encode_bytes in ground arith

encode_u64_ok :
    (c : EncodeConfig) (values payload : List ℕ)
    → Codecs.encode_u64 c values ≡ ok payload
    → (c ≡ u64_config) × (Pipeline.encode_u64 values ≡ ok payload)
encode_u64_ok c values payload h = unfold Codecs.encode_u64 in ground arith

module _ (hash : List ℕ → ℕ) where
  -- `encode_bytes_frame` succeeds under the configuration (raw bytes, no transform, RLE) alone, and
  -- the frame is then that of the RLE payload.
  pub encode_bytes_frame_iff :
      (c : EncodeConfig) (input frame : List ℕ)
      → (encode_bytes_frame hash c input ≡ ok frame)
        ↔ ((c ≡ byte_config) × (frame ≡ encode_v1 hash rle (encode_rle input)))
  encode_bytes_frame_iff c input frame = (there, back)
    where
      there :
          encode_bytes_frame hash c input ≡ ok frame
          → (c ≡ byte_config) × (frame ≡ encode_v1 hash rle (encode_rle input))
      there h = unfold encode_bytes_frame Codecs.encode_bytes in ground arith

      back :
          (c ≡ byte_config) × (frame ≡ encode_v1 hash rle (encode_rle input))
          → encode_bytes_frame hash c input ≡ ok frame
      back p = rw (p.0, p.1) (unfold encode_bytes_frame Codecs.encode_bytes validate in refl)

  decode_byte_frame :
      (payload : List ℕ)
      → 18 + length payload < 2 ^ 64
      → IsU32 (hash payload)
      → decode_bytes_frame hash byte_config (encode_v1 hash rle payload) ≡ decode_rle payload
  decode_byte_frame payload fits word =
      unfold decode_bytes_frame Codecs.decode_bytes validate in
      rw (decode_v1-encode_v1 hash rle payload fits word)

  -- Under every configuration, what `encode_bytes_frame` returns for at most 256 MiB of input is
  -- decoded to that input by `decode_bytes_frame` under the same configuration.
  pub decode_bytes_frame-encode_bytes_frame :
      (c : EncodeConfig) (input frame : List ℕ)
      → ((payload : List ℕ) → IsU32 (hash payload))
      → length input ≤ max_decoded_bytes
      → encode_bytes_frame hash c input ≡ ok frame
      → decode_bytes_frame hash c frame ≡ ok input
  decode_bytes_frame-encode_bytes_frame c input frame word bound h =
      let (config, written) = (encode_bytes_frame_iff c input frame).0 h in
      let size = Runs-length (encode_rle-Runs input) in
      ap₂ (decode_bytes_frame hash) config written
      ∙ decode_byte_frame (encode_rle input) (omega arith) (word (encode_rle input))
      ∙ decode_rle-encode_rle input bound

  encode_u64_frame_ok :
      (c : EncodeConfig) (values frame : List ℕ)
      → encode_u64_frame hash c values ≡ ok frame
      → (c ≡ u64_config)
        × (payload : List ℕ) × (Pipeline.encode_u64 values ≡ ok payload)
        × (frame ≡ encode_v1 hash delta_varint_u64 payload)
  unfolding encode_u64_frame
  encode_u64_frame_ok c values frame h =
      let wrap = λ (payload : List ℕ). Result.ok (encode_v1 hash c.codec payload) in
      let (valid, checked, rest) =
        >>=-eq-ok (λ _. Codecs.encode_u64 c values >>= wrap) (validate c) h in
      let (payload, e, written) = >>=-eq-ok wrap (Codecs.encode_u64 c values) rest in
      let (same, run) = encode_u64_ok c values payload e in
      let frame_of : encode_v1 hash c.codec payload ≡ frame = cc in
      (same, payload, run, sym frame_of ∙ ap (λ t. encode_v1 hash t.codec payload) same)

  decode_u64_config_frame :
      (payload : List ℕ)
      → 18 + length payload < 2 ^ 64
      → IsU32 (hash payload)
      → decode_u64_frame hash u64_config (encode_v1 hash delta_varint_u64 payload)
        ≡ Pipeline.decode_u64 payload
  decode_u64_config_frame payload fits word =
      unfold decode_u64_frame Codecs.decode_u64 validate in
      rw (decode_v1-encode_v1 hash delta_varint_u64 payload fits word)

  -- Under every configuration, what `encode_u64_frame` returns for u64 values is decoded to these
  -- values by `decode_u64_frame` under the same configuration. (A `Vec<u64>` has under 2^60 elements.)
  pub decode_u64_frame-encode_u64_frame :
      (c : EncodeConfig) (values frame : List ℕ)
      → ((payload : List ℕ) → IsU32 (hash payload))
      → All IsU64 values
      → length values < 2 ^ 60
      → encode_u64_frame hash c values ≡ ok frame
      → decode_u64_frame hash c frame ≡ ok values
  decode_u64_frame-encode_u64_frame c values frame word words bound h =
      let (config, payload, run, written) = encode_u64_frame_ok c values frame h in
      let size = length-encode_u64 values payload words run in
      ap₂ (decode_u64_frame hash) config written
      ∙ decode_u64_config_frame payload (omega arith) (word payload)
      ∙ encode_u64→decode_u64 values payload words run
