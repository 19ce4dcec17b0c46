-- ===== src/Primitives/Zigzag/Tests.antt =====
-- The source's test vectors, and the theorems at values of both signs.
use compact_core.Common.{◌^◌, ◌-◌, ◌≡◌, refl, arith, [], ◌∷◌, All, IsU64}
use compact_core.Common.Int.{pos, negsuc, IsI64}
use compact_core.Primitives.Zigzag.{encode_i64, decode_u64, encode_i64_slice, decode_u64_slice}
use compact_core.Primitives.Zigzag.RoundTrip.{
  decode_u64-encode_i64, encode_i64-decode_u64, decode_u64_slice-encode_i64_slice,
}

known_mappings :
    (encode_i64 (pos 0) ≡ 0)
    × (encode_i64 (negsuc 0) ≡ 1)
    × (encode_i64 (pos 2) ≡ 4)
    × (encode_i64 (pos (2 ^ 63 - 1)) ≡ 2 ^ 64 - 2)
    × (encode_i64 (negsuc (2 ^ 63 - 1)) ≡ 2 ^ 64 - 1)
unfolding encode_i64
known_mappings = (refl, refl, refl, refl, refl)

decode_u64-encode_i64_example :
    IsU64 (encode_i64 (negsuc 99)) × (decode_u64 (encode_i64 (negsuc 99)) ≡ negsuc 99)
decode_u64-encode_i64_example = decode_u64-encode_i64 (negsuc 99) (omega arith)

encode_i64-decode_u64_example : IsI64 (decode_u64 7) × (encode_i64 (decode_u64 7) ≡ 7)
encode_i64-decode_u64_example = encode_i64-decode_u64 7 (omega arith)

decode_u64_slice-encode_i64_slice_example :
    All IsU64 (encode_i64_slice (negsuc 0 ∷ pos 5 ∷ []))
    × (decode_u64_slice (encode_i64_slice (negsuc 0 ∷ pos 5 ∷ [])) ≡ negsuc 0 ∷ pos 5 ∷ [])
decode_u64_slice-encode_i64_slice_example =
    decode_u64_slice-encode_i64_slice (negsuc 0 ∷ pos 5 ∷ []) (omega arith)
