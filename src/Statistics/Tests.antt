-- ===== src/Statistics/Tests.antt =====
-- The source's test, and the theorem at its bytes.
use compact_core.Common.{
  ◌≡◌, refl, arith, ℕ, List, [], ◌∷◌, some, ok, err, ◌↔◌, to_le_bytes, from_le_bytes,
}
use compact_core.Statistics.{u64, decode, encode_u64, min_over_max, ColumnStatistics}
use compact_core.Statistics.RoundTrip.{encode, IsSound, decode_iff}

abbrev range_bytes : List ℕ
range_bytes = 1 ∷ 3 ∷ 0 ∷ 0 ∷ 0 ∷ 0 ∷ 0 ∷ 0 ∷ 0 ∷ 9 ∷ 0 ∷ 0 ∷ 0 ∷ 0 ∷ 0 ∷ 0 ∷ 0 ∷ []

range_encoded : encode_u64 (some 3) (some 9) ≡ range_bytes
unfolding encode_u64 to_le_bytes
range_encoded = refl

range_swapped : decode (encode_u64 (some 9) (some 3)) ≡ err min_over_max
unfolding decode encode_u64 to_le_bytes from_le_bytes
range_swapped = refl

abbrev three_to_nine : ColumnStatistics
three_to_nine = u64 3 9

decode_iff_example :
    (decode range_bytes ≡ ok three_to_nine)
    ↔ ((range_bytes ≡ encode three_to_nine) × IsSound three_to_nine)
decode_iff_example = decode_iff range_bytes three_to_nine (omega arith)
