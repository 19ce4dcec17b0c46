-- ===== src/Pipeline/Tests.antt =====
-- The source's test vectors, and the theorems at concrete series.
use compact_core.Common.{ℕ, ◌≡◌, refl, arith, List, [], ◌∷◌, ok, err, ◌↔◌, invalid_input}
use compact_core.Primitives.Delta.Unsigned.{NonDecreasing}
use compact_core.Primitives.Delta.{encode_delta_u64, decode_delta_u64}
use compact_core.Primitives.Varint
use compact_core.Pipeline.{encode_u64, decode_u64}
use compact_core.Pipeline.RoundTrip.{encode_u64_iff, encode_u64_domain}

abbrev series : List ℕ
series = 100 ∷ 101 ∷ 102 ∷ 130 ∷ []

series_runs :
    (encode_u64 series ≡ ok (100 ∷ 1 ∷ 1 ∷ 28 ∷ []))
    × (decode_u64 (100 ∷ 1 ∷ 1 ∷ 28 ∷ []) ≡ ok series)
unfolding encode_u64 decode_u64 encode_delta_u64 decode_delta_u64 Varint.encode_u64
    Varint.decode_u64
series_runs = (refl, refl)

encode_u64_iff_example :
    (encode_u64 series ≡ ok (100 ∷ 1 ∷ 1 ∷ 28 ∷ []))
    ↔ (decode_u64 (100 ∷ 1 ∷ 1 ∷ 28 ∷ []) ≡ ok series)
encode_u64_iff_example = encode_u64_iff series (100 ∷ 1 ∷ 1 ∷ 28 ∷ []) (omega arith) (omega arith)

encode_u64_domain_example :
    (NonDecreasing series
      → (bytes : List ℕ) × (encode_u64 series ≡ ok bytes) × (decode_u64 bytes ≡ ok series))
    × (¬ NonDecreasing series
        → encode_u64 series ≡ err (invalid_input "u64 delta cannot be negative"))
encode_u64_domain_example = encode_u64_domain series (omega arith)
