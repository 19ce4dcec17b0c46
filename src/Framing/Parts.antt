-- ===== src/Framing/Parts.antt =====
-- The fields of a frame, and the slices that hold them.
use compact_core.Common.{
  ℕ, ◌+◌, ◌^◌, ◌<◌, ◌≡◌, refl, sym, ap, ap₂, ◌∙◌, arith, List, ◌∷◌, ◌++◌, length, get_or, take,
  drop, to_le_bytes, from_le_bytes, length-to_le_bytes, from_le_bytes-to_le_bytes,
  to_le_bytes-from_le_bytes, length-append, length-take, length-drop, take-append-drop, drop-cons,
  drop-drop, take-append_exact, drop-append_exact, All, IsByte, IsU32, All-take, All-drop,
}
use compact_core.Config.{Codec}
use compact_core.Framing.{magic_v1, codec_to_id, encode_v1, Frame}

module _ (hash : List ℕ → ℕ) where
  -- The header fields of `bytes` and what stands behind them are those of the frame `f`.
  pub record HasParts (bytes : List ℕ) (f : Frame) : Type 0 where
    pub magic : take 4 bytes ≡ magic_v1
    pub version : get_or bytes 4 0 ≡ 1
    pub codec : get_or bytes 5 0 ≡ codec_to_id f.codec
    pub payload_len : from_le_bytes (take 8 (drop 6 bytes)) ≡ length f.payload
    pub crc : from_le_bytes (take 4 (drop 14 bytes)) ≡ hash f.payload
    pub payload : drop 18 bytes ≡ f.payload
    pub size : length bytes ≡ 18 + length f.payload

  pub length-encode_v1 :
      (codec : Codec) (payload : List ℕ)
      → length (encode_v1 hash codec payload) ≡ 18 + length payload
  unfolding encode_v1
  length-encode_v1 codec payload = omega (
    arith,
    length-append (to_le_bytes 8 (length payload)) (to_le_bytes 4 (hash payload) ++ payload),
    length-append (to_le_bytes 4 (hash payload)) payload,
    length-to_le_bytes 8 (length payload),
    length-to_le_bytes 4 (hash payload),
  )

  pub encode_v1-HasParts :
      (f : Frame)
      → length f.payload < 2 ^ 64
      → IsU32 (hash f.payload)
      → HasParts (encode_v1 hash f.codec f.payload) f
  unfolding encode_v1
  encode_v1-HasParts f fits word =
      let len = to_le_bytes 8 (length f.payload) in
      let crc = to_le_bytes 4 (hash f.payload) in
      let len_size : length len ≡ 8 = length-to_le_bytes 8 (length f.payload) in
      let crc_size : length crc ≡ 4 = length-to_le_bytes 4 (hash f.payload) in
      let tail : drop 8 (len ++ (crc ++ f.payload)) ≡ crc ++ f.payload =
        drop-append_exact 8 len (crc ++ f.payload) len_size in
      record {
        magic = refl;
        version = refl;
        codec = refl;
        payload_len =
            ap from_le_bytes (take-append_exact 8 len (crc ++ f.payload) len_size)
            ∙ from_le_bytes-to_le_bytes 8 (length f.payload) fits;
        crc =
            ap (λ t. from_le_bytes (take 4 t)) tail
            ∙ ap from_le_bytes (take-append_exact 4 crc f.payload crc_size)
            ∙ from_le_bytes-to_le_bytes 4 (hash f.payload) word;
        payload =
            sym (drop-drop 4 8 12 (len ++ (crc ++ f.payload)) refl)
            ∙ ap (drop 4) tail
            ∙ drop-append_exact 4 crc f.payload crc_size;
        size = omega (
          arith,
          length-append len (crc ++ f.payload),
          length-append crc f.payload,
          len_size,
          crc_size,
        );
      }

  -- Bytes with the parts of a frame are the bytes that `encode_v1` writes for it.
  pub HasParts→encode_v1 :
      (bytes : List ℕ) (f : Frame)
      → All IsByte bytes
      → HasParts bytes f
      → bytes ≡ encode_v1 hash f.codec f.payload
  unfolding encode_v1
  HasParts→encode_v1 bytes f octets p =
      let len_at : length (take 8 (drop 6 bytes)) ≡ 8 =
        omega (arith, p.size, length-take 8 (drop 6 bytes), length-drop 6 bytes) in
      let crc_at : length (take 4 (drop 14 bytes)) ≡ 4 =
        omega (arith, p.size, length-take 4 (drop 14 bytes), length-drop 14 bytes) in
      let len_bytes : take 8 (drop 6 bytes) ≡ to_le_bytes 8 (length f.payload) =
        sym (
          to_le_bytes-from_le_bytes (take 8 (drop 6 bytes))
            (All-take IsByte 8 (drop 6 bytes) (All-drop IsByte 6 bytes octets)))
        ∙ ap₂ to_le_bytes len_at p.payload_len in
      let crc_bytes : take 4 (drop 14 bytes) ≡ to_le_bytes 4 (hash f.payload) =
        sym (
          to_le_bytes-from_le_bytes (take 4 (drop 14 bytes))
            (All-take IsByte 4 (drop 14 bytes) (All-drop IsByte 14 bytes octets)))
        ∙ ap₂ to_le_bytes crc_at p.crc in
      let tail : drop 14 bytes ≡ to_le_bytes 4 (hash f.payload) ++ f.payload =
        sym (take-append-drop 4 (drop 14 bytes))
        ∙ ap₂ ◌++◌ crc_bytes (drop-drop 4 14 18 bytes refl ∙ p.payload) in
      let middle : drop 6 bytes
          ≡ to_le_bytes 8 (length f.payload) ++ (to_le_bytes 4 (hash f.payload) ++ f.payload) =
        sym (take-append-drop 8 (drop 6 bytes))
        ∙ ap₂ ◌++◌ len_bytes (drop-drop 8 6 14 bytes refl ∙ tail) in
      sym (take-append-drop 4 bytes)
      ∙ ap₂ ◌++◌ p.magic (
          drop-cons 4 bytes 0 (omega (arith, p.size))
          ∙ ap₂ ◌∷◌ p.version
              (drop-cons 5 bytes 0 (omega (arith, p.size)) ∙ ap₂ ◌∷◌ p.codec middle))
