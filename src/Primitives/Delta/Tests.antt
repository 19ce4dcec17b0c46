-- ===== src/Primitives/Delta/Tests.antt =====
-- The source's test vectors, and the theorems at concrete series.
use compact_core.Common.{ℕ, ◌-◌, ◌^◌, ◌≡◌, refl, arith, List, [], ◌∷◌, ok, err, ◌↔◌, invalid_input}
use compact_core.Common.Int.{pos, negsuc}
use compact_core.Primitives.Delta.{
  encode_delta_u64, decode_delta_u64, encode_delta_i64, decode_delta_i64, encode_delta,
}
use compact_core.Primitives.Delta.Unsigned.{
  NonDecreasing, encode_delta_u64_iff, encode_delta_u64_domain,
}
use compact_core.Primitives.Delta.Signed.{encode_delta_i64_iff}

abbrev series : List ℕ
series = 100 ∷ 100 ∷ 101 ∷ 120 ∷ []

abbrev deltas : List ℕ
deltas = 100 ∷ 0 ∷ 1 ∷ 19 ∷ []

series_runs : (encode_delta_u64 series ≡ ok deltas) × (decode_delta_u64 deltas ≡ ok series)
unfolding encode_delta_u64 decode_delta_u64
series_runs = (refl, refl)

decode_overflow :
    decode_delta_u64 ((2 ^ 64 - 1) ∷ 1 ∷ []) ≡ err (invalid_input "u64 delta decode overflow")
unfolding decode_delta_u64
decode_overflow = refl

signed_overflow :
    encode_delta_i64 (pos (2 ^ 63 - 1) ∷ negsuc (2 ^ 63 - 1) ∷ [])
    ≡ err (invalid_input "i64 delta encode overflow")
unfolding encode_delta_i64
signed_overflow = refl

byte_vector : encode_delta (10 ∷ 12 ∷ 9 ∷ 9 ∷ []) ≡ 10 ∷ 2 ∷ 253 ∷ 0 ∷ []
unfolding encode_delta
byte_vector = refl

encode_delta_u64_iff_example :
    (encode_delta_u64 series ≡ ok deltas) ↔ (decode_delta_u64 deltas ≡ ok series)
encode_delta_u64_iff_example = encode_delta_u64_iff series deltas (omega arith)

encode_delta_u64_domain_example :
    (NonDecreasing (10 ∷ 9 ∷ []) → (found : List ℕ) × (encode_delta_u64 (10 ∷ 9 ∷ []) ≡ ok found))
    × (¬ NonDecreasing (10 ∷ 9 ∷ [])
        → encode_delta_u64 (10 ∷ 9 ∷ []) ≡ err (invalid_input "u64 delta cannot be negative"))
encode_delta_u64_domain_example = encode_delta_u64_domain (10 ∷ 9 ∷ [])

encode_delta_i64_iff_example :
    (encode_delta_i64 (pos 5 ∷ negsuc 1 ∷ []) ≡ ok (pos 5 ∷ negsuc 6 ∷ []))
    ↔ (decode_delta_i64 (pos 5 ∷ negsuc 6 ∷ []) ≡ ok (pos 5 ∷ negsuc 1 ∷ []))
encode_delta_i64_iff_example =
    encode_delta_i64_iff (pos 5 ∷ negsuc 1 ∷ []) (pos 5 ∷ negsuc 6 ∷ []) (omega arith) (omega arith)
