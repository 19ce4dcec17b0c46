-- ===== src/Framing/Exact.antt =====
-- `decode_v1` accepts exactly the frames that `encode_v1` writes.
use compact_core.Common.{
  ℕ, ◌+◌, ◌^◌, ◌≤◌, ◌<◌, ◌≡◌, sym, ap, ◌∙◌, arith, List, length, get_or, take, drop, from_le_bytes,
  bytes_eq, bytes_eq_refl, bytes_eq→eq, length-drop, take-all, All, IsByte, IsU32, ok, ◌↔◌, true,
}
use compact_core.Config.{Codec, rle, delta_varint_u64, column_block, huffman, lz77}
use compact_core.Framing.{magic_v1, codec_to_id, id_to_codec, encode_v1, decode_v1, Frame}
use compact_core.Framing.Parts.{HasParts, length-encode_v1, encode_v1-HasParts, HasParts→encode_v1}

-- The codec table reads back each id that it writes, and no other.
pub id_to_codec_iff : (id : ℕ) (c : Codec) → (id_to_codec id ≡ ok c) ↔ (id ≡ codec_to_id c)
unfolding id_to_codec codec_to_id
id_to_codec_iff id rle = ground arith
id_to_codec_iff id delta_varint_u64 = ground arith
id_to_codec_iff id column_block = ground arith
id_to_codec_iff id huffman = ground arith
id_to_codec_iff id lz77 = ground arith

module _ (hash : List ℕ → ℕ) where
  HasParts→decode_v1 :
      (bytes : List ℕ) (f : Frame)
      → 18 + length f.payload < 2 ^ 64
      → HasParts hash bytes f
      → decode_v1 hash bytes ≡ ok f
  unfolding decode_v1
  HasParts→decode_v1 bytes f fits p = ground (
    arith,
    p.magic,
    bytes_eq_refl magic_v1,
    (id_to_codec_iff (get_or bytes 5 0) f.codec).1 p.codec,
    take-all (length f.payload) f.payload (omega arith),
  )

  -- What the tests of `decode_v1` have established when it succeeds.
  decode_v1-checks :
      (bytes : List ℕ) (f : Frame)
      → decode_v1 hash bytes ≡ ok f
      → (18 ≤ length bytes)
        × (bytes_eq (take 4 bytes) magic_v1 ≡ true)
        × (get_or bytes 4 0 ≡ 1)
        × (id_to_codec (get_or bytes 5 0) ≡ ok f.codec)
        × (length bytes ≡ 18 + from_le_bytes (take 8 (drop 6 bytes)))
        × (length bytes < 2 ^ 64)
        × (take (from_le_bytes (take 8 (drop 6 bytes))) (drop 18 bytes) ≡ f.payload)
        × (hash f.payload ≡ from_le_bytes (take 4 (drop 14 bytes)))
  unfolding decode_v1
  decode_v1-checks bytes f h = ground arith

  decode_v1→HasParts :
      (bytes : List ℕ) (f : Frame)
      → decode_v1 hash bytes ≡ ok f
      → HasParts hash bytes f × (length bytes < 2 ^ 64)
  decode_v1→HasParts bytes f h =
      let (long, magic, version, codec, size, fits, payload, crc) = decode_v1-checks bytes f h in
      let whole : drop 18 bytes ≡ f.payload =
        sym (
          take-all (from_le_bytes (take 8 (drop 6 bytes))) (drop 18 bytes)
            (omega (arith, length-drop 18 bytes)))
        ∙ payload in
      let count : length f.payload ≡ from_le_bytes (take 8 (drop 6 bytes)) =
        omega (arith, ap length whole, length-drop 18 bytes) in
      (
        record {
          magic = bytes_eq→eq (take 4 bytes) magic_v1 magic;
          version = version;
          codec = (id_to_codec_iff (get_or bytes 5 0) f.codec).0 codec;
          payload_len = sym count;
          crc = sym crc;
          payload = whole;
          size = omega arith;
        },
        fits,
      )

  -- For a checksum of 32 bits: a byte string decodes to a frame if and only if it is, byte for byte,
  -- what `encode_v1` writes for the codec and the payload of that frame, and its length is a `usize`.
  pub decode_v1_iff :
      (bytes : List ℕ) (f : Frame)
      → All IsByte bytes
      → IsU32 (hash f.payload)
      → (decode_v1 hash bytes ≡ ok f)
        ↔ ((bytes ≡ encode_v1 hash f.codec f.payload) × (length bytes < 2 ^ 64))
  decode_v1_iff bytes f octets word = (
    λ h.
        let (parts, fits) = decode_v1→HasParts bytes f h in
        (HasParts→encode_v1 hash bytes f octets parts, fits),
    λ p.
        let size : length bytes ≡ 18 + length f.payload =
          ap length p.0 ∙ length-encode_v1 hash f.codec f.payload in
        let fits : 18 + length f.payload < 2 ^ 64 = omega (arith, p.1) in
        ap (decode_v1 hash) p.0
        ∙ HasParts→decode_v1 (encode_v1 hash f.codec f.payload) f fits
            (encode_v1-HasParts hash f (omega arith) word),
  )

  -- A frame that `encode_v1` wrote decodes to its codec and payload.
  pub decode_v1-encode_v1 :
      (codec : Codec) (payload : List ℕ)
      → 18 + length payload < 2 ^ 64
      → IsU32 (hash payload)
      → decode_v1 hash (encode_v1 hash codec payload)
        ≡ ok (record { codec = codec; payload = payload })
  decode_v1-encode_v1 codec payload fits word =
      let f : Frame = record { codec = codec; payload = payload } in
      HasParts→decode_v1 (encode_v1 hash codec payload) f fits
        (encode_v1-HasParts hash f (omega arith) word)
