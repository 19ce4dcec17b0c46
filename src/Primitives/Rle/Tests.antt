-- ===== src/Primitives/Rle/Tests.antt =====
-- The source's tests, and the theorems at concrete inputs.
use compact_core.Common.{
  ℕ, ◌≤◌, ◌≡◌, refl, arith, List, [], ◌∷◌, ok, err, replicate, length, ◌↔◌, leb, if◌then◌else◌,
}
use compact_core.Primitives.Rle.{
  encode_rle, decode_rle, decode_rle_bounded, over_limit, zero_count, odd_length,
}
use compact_core.Primitives.Rle.Runs.{Runs, Shortest}
use compact_core.Primitives.Rle.RoundTrip.{encode_rle-Shortest}
use compact_core.Primitives.Rle.Decoder.{
  decode_rle_bounded_iff, decode_rle_bounded-encode_rle, decode_rle-encode_rle,
}

abbrev letters : List ℕ
letters = b'A' ∷ b'A' ∷ b'A' ∷ b'B' ∷ []

abbrev pairs : List ℕ
pairs = 3 ∷ b'A' ∷ 1 ∷ b'B' ∷ []

long_run : encode_rle (replicate 300 b'A') ≡ 255 ∷ b'A' ∷ 45 ∷ b'A' ∷ []
unfolding encode_rle
long_run = refl

refusals :
    (decode_rle (3 ∷ b'A' ∷ 2 ∷ []) ≡ err odd_length)
    × (decode_rle (0 ∷ b'A' ∷ []) ≡ err zero_count)
    × (decode_rle_bounded (5 ∷ b'A' ∷ []) 4 ≡ err over_limit)
unfolding decode_rle
refusals = (refl, refl, refl)

encode_rle-Shortest_example : Shortest (encode_rle letters)
encode_rle-Shortest_example = encode_rle-Shortest letters

decode_rle_bounded_iff_example :
    (decode_rle_bounded pairs 4 ≡ ok letters) ↔ (Runs pairs letters × (length letters ≤ 4))
decode_rle_bounded_iff_example = decode_rle_bounded_iff pairs letters 4 (omega arith)

decode_rle_bounded-encode_rle_example :
    decode_rle_bounded (encode_rle letters) 3
    ≡ (if leb (length letters) 3 then ok letters else err over_limit)
decode_rle_bounded-encode_rle_example = decode_rle_bounded-encode_rle letters 3 (omega arith)

decode_rle-encode_rle_example : decode_rle (encode_rle letters) ≡ ok letters
decode_rle-encode_rle_example = decode_rle-encode_rle letters (omega arith)
