-- ===== src/Primitives/Bitpack/Tests.antt =====
-- Runs of the packer in the manner of the source's tests.
use compact_core.Common.{◌-◌, ◌^◌, ◌≡◌, refl, arith, [], ◌∷◌, ok, err, ◌>>=◌}
use compact_core.Primitives.Bitpack.RoundTrip.{decode_u64-encode_u64}
use compact_core.Primitives.Bitpack.{
  encode_u64, decode_u64, over_width, zero_bits, wrong_length, non_zero_padding,
}

five_threes :
    (encode_u64 (1 ∷ 2 ∷ 3 ∷ 4 ∷ 7 ∷ []) 3 ≡ ok (0b11010001 ∷ 0b01111000 ∷ []))
    × (decode_u64 (0b11010001 ∷ 0b01111000 ∷ []) 3 5 ≡ ok (1 ∷ 2 ∷ 3 ∷ 4 ∷ 7 ∷ []))
unfolding encode_u64 decode_u64
five_threes = (refl, refl)

widest :
    (do bytes ← encode_u64 (0 ∷ (2 ^ 64 - 1) ∷ []) 64; decode_u64 bytes 64 2)
    ≡ ok (0 ∷ (2 ^ 64 - 1) ∷ [])
unfolding encode_u64 decode_u64
widest = refl

refusals :
    (encode_u64 (8 ∷ []) 3 ≡ err over_width)
    × (encode_u64 (1 ∷ []) 0 ≡ err zero_bits)
    × (decode_u64 (1 ∷ 0 ∷ []) 1 1 ≡ err wrong_length)
    × (decode_u64 (3 ∷ []) 1 1 ≡ err non_zero_padding)
unfolding encode_u64 decode_u64
refusals = (refl, refl, refl, refl)

decode_u64-encode_u64_example :
    (do bytes ← encode_u64 (1 ∷ 2 ∷ 3 ∷ 4 ∷ 7 ∷ []) 3; decode_u64 bytes 3 5)
    ≡ ok (1 ∷ 2 ∷ 3 ∷ 4 ∷ 7 ∷ [])
decode_u64-encode_u64_example =
    decode_u64-encode_u64 3 (1 ∷ 2 ∷ 3 ∷ 4 ∷ 7 ∷ [])
      (omega arith, (omega arith, (omega arith, (omega arith, (omega arith, (omega arith, tt))))))
      (omega arith)
