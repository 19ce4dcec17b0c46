-- ===== src/Primitives/Varint/Tests.antt =====
-- Runs of the source's own tests.
use compact_core.Common.{
  ℕ, ◌+◌, ◌≤◌, ◌≡◌, ◌↔◌, refl, arith, List, [], ◌∷◌, ◌++◌, length, drop, All, IsU64, IsByte, ok,
  err,
}
use compact_core.Primitives.Varint.{
  encode_u64, decode_u64, read_u64, encoded_len, overlong, overflow, truncated,
}
use compact_core.Primitives.Varint.RoundTrip.{decode_u64-encode_u64}
use compact_core.Primitives.Varint.Canonical.{decode_u64_iff}
use compact_core.Primitives.Varint.Read.{read_u64-encode_u64, read_u64-canonical}
use compact_core.Primitives.Varint.Size.{LeastGroups, expected_size, encode_u64-size}

largest_value :
    encode_u64 (0xffff_ffff_ffff_ffff ∷ 300 ∷ [])
    ≡ 0xff ∷ 0xff ∷ 0xff ∷ 0xff ∷ 0xff ∷ 0xff ∷ 0xff ∷ 0xff ∷ 0xff ∷ 0x01 ∷ 0xac ∷ 0x02 ∷ []
unfolding encode_u64
largest_value = refl

overlong_refused : decode_u64 (0x80 ∷ 0x80 ∷ 0x00 ∷ []) ≡ err overlong
unfolding decode_u64
overlong_refused = refl

truncated_refused : decode_u64 (0xac ∷ 0x02 ∷ 0x81 ∷ []) ≡ err truncated
unfolding decode_u64
truncated_refused = refl

overflow_refused :
    decode_u64 (0xff ∷ 0xff ∷ 0xff ∷ 0xff ∷ 0xff ∷ 0xff ∷ 0xff ∷ 0xff ∷ 0xff ∷ 0x02 ∷ [])
    ≡ err overflow
unfolding decode_u64
overflow_refused = refl

second_value : read_u64 (0x7f ∷ 0x80 ∷ 0x01 ∷ 0xac ∷ 0x02 ∷ []) 1 ≡ (ok 128, 3)
unfolding read_u64
second_value = refl

abbrev two_values : List ℕ
two_values = 127 ∷ 300 ∷ []

abbrev two_bytes : List ℕ
two_bytes = 0x7f ∷ 0xac ∷ 0x02 ∷ []

decode_u64_iff_example :
    (decode_u64 two_bytes ≡ ok two_values)
    ↔ ((encode_u64 two_values ≡ two_bytes) × All IsU64 two_values)
decode_u64_iff_example = decode_u64_iff two_bytes two_values (omega arith)

decode_u64-encode_u64_example : decode_u64 (encode_u64 two_values) ≡ ok two_values
decode_u64-encode_u64_example = decode_u64-encode_u64 two_values (omega arith)

read_u64-encode_u64_example :
    read_u64 (two_bytes ++ (encode_u64 (5 ∷ []) ++ (9 ∷ []))) 3
    ≡ (ok 5, 3 + length (encode_u64 (5 ∷ [])))
read_u64-encode_u64_example = read_u64-encode_u64 two_bytes 5 (9 ∷ []) (omega arith)

read_one : read_u64 two_bytes 1 ≡ (ok 300, 3)
unfolding read_u64
read_one = refl

read_u64-canonical_example :
    (back : List ℕ) × (drop 1 two_bytes ≡ encode_u64 (300 ∷ []) ++ back)
    × (3 + length back ≡ length two_bytes)
    × IsU64 300
read_u64-canonical_example =
    read_u64-canonical two_bytes 1 300 3 (omega arith) (omega arith) read_one

encode_u64-size_example :
    (length (encode_u64 two_values) ≡ expected_size two_values)
    × All (λ v. (encoded_len v ≤ 10) × LeastGroups v (encoded_len v)) two_values
    × All IsByte (encode_u64 two_values)
encode_u64-size_example = encode_u64-size two_values (omega arith)
