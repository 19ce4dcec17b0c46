-- ===== src/Primitives/Rle/Decoder.antt =====
-- The decoder against the meaning of the pairs.
use compact_core.Common.{
  ℕ, ◌+◌, ◌%◌, ◌^◌, ◌≤◌, ◌<◌, ◌≡◌, refl, sym, ap, ◌∙◌, arith, List, [], ◌∷◌, ◌++◌, replicate,
  length, ok, err, dec_le, ◌↔◌, inl, inr, if◌then◌else◌, leb, ==_iff, ◌==◌, Bool-cases,
  Result-cases,
}
use compact_core.Primitives.Rle.{
  encode_rle, scan_counts, expand, decode_rle_bounded, over_limit, decode_rle, max_decoded_bytes,
}
use compact_core.Primitives.Rle.Runs.{Runs, done, run, length-run}
use compact_core.Primitives.Rle.RoundTrip.{encode_rle-Runs}

Runs-even : {pairs out : List ℕ} → Runs pairs out → length pairs % 2 ≡ 0
Runs-even done = refl
Runs-even (run count value pairs out whole pos rest e) = omega (arith, Runs-even rest)

Runs-expand : {pairs out : List ℕ} → Runs pairs out → expand pairs ≡ out
unfolding expand
Runs-expand done = refl
Runs-expand (run count value pairs out whole pos rest e) =
    ap (λ t. replicate count value ++ t) (Runs-expand rest) ∙ sym e

Runs-scan :
    (limit estimated : ℕ) {pairs out : List ℕ}
    → estimated + length out < 2 ^ 64
    → Runs pairs out
    → estimated ≤ limit
    → scan_counts limit estimated pairs
      ≡ (if leb (estimated + length out) limit then ok (estimated + length out) else err over_limit)
unfolding scan_counts
Runs-scan limit estimated fits done h = ground arith
Runs-scan limit estimated fits (run count value pairs out whole pos rest e) h =
    elim (dec_le (estimated + count) limit) [
      | yes small ↦
          let size = length-run count value out whole e in
          ground (
            arith,
            Runs-scan limit (estimated + count) {pairs = pairs} {out = out} (omega arith) rest
                small,
          )
      | no large ↦ ground (arith, length-run count value out whole e)
    ]

Runs-decode :
    (limit : ℕ) {pairs out : List ℕ}
    → length out < 2 ^ 64
    → Runs pairs out
    → decode_rle_bounded pairs limit ≡ (if leb (length out) limit then ok out else err over_limit)
unfolding decode_rle_bounded
Runs-decode limit {pairs} {out} fits runs = ground (
  arith,
  Runs-even runs,
  Runs-expand runs,
  Runs-scan limit 0 {pairs = pairs} {out = out} (omega arith) runs (omega arith),
)

scan→Runs :
    (limit estimated : ℕ) (pairs : List ℕ) (total : ℕ)
    → length pairs % 2 ≡ 0
    → estimated ≤ limit
    → scan_counts limit estimated pairs ≡ ok total
    → Runs pairs (expand pairs) × (total ≡ estimated + length (expand pairs)) × (total ≤ limit)
unfolding scan_counts expand
scan→Runs limit estimated [] total even within h = (done, ground arith, ground arith)
scan→Runs limit estimated (odd ∷ []) total even within h = absurd (omega arith)
scan→Runs limit estimated (count ∷ value ∷ rest) total even within h =
    let (pos, small, more) = step in
    let (runs, size, bound) =
      scan→Runs limit (estimated + count) rest total (omega arith) small more in
    (
      run count value rest (expand rest) (replicate count value ++ expand rest) pos runs refl,
      omega
          (arith, length-run count value (expand rest) (replicate count value ++ expand rest) refl),
      bound,
    )
  where
    step :
        (0 < count)
        × (estimated + count ≤ limit)
        × (scan_counts limit (estimated + count) rest ≡ ok total)
    step = ground arith

decode→Runs :
    (pairs out : List ℕ) (limit : ℕ)
    → decode_rle_bounded pairs limit ≡ ok out
    → Runs pairs out × (length out ≤ limit)
unfolding decode_rle_bounded
decode→Runs pairs out limit h = elim (Bool-cases (length pairs % 2 == 0)) [
  | inl even ↦ elim (Result-cases (scan_counts limit 0 pairs)) [
    | inl (total, e) ↦
        let same : expand pairs ≡ out = ground arith in
        let (runs, size, bound) =
          scan→Runs limit 0 pairs total ((==_iff _ 0).0 even) (omega arith) e in
        (rw (← same) runs, omega (arith, ap length same))
    | inr (x, e) ↦ absurd (ground arith)
  ]
  | inr odd ↦ absurd (ground arith)
]

-- `decode_rle_bounded` accepts a byte string with the result `out` exactly when it is a sequence of
-- non-empty runs that stand for `out` and `out` is no longer than the limit. (`usize` has 64 bits.)
pub decode_rle_bounded_iff :
    (pairs out : List ℕ) (limit : ℕ)
    → limit < 2 ^ 64
    → (decode_rle_bounded pairs limit ≡ ok out) ↔ (Runs pairs out × (length out ≤ limit))
decode_rle_bounded_iff pairs out limit fits = (
  decode→Runs pairs out limit,
  λ r. Runs-decode limit {pairs = pairs} {out = out} (omega arith) r.0 ∙ ground arith,
)

-- Decoding what `encode_rle` wrote gives the input back if it is within the caller's limit, and the
-- limit's error if not.
pub decode_rle_bounded-encode_rle :
    (bytes : List ℕ) (limit : ℕ)
    → length bytes < 2 ^ 64
    → decode_rle_bounded (encode_rle bytes) limit
      ≡ (if leb (length bytes) limit then ok bytes else err over_limit)
decode_rle_bounded-encode_rle bytes limit fits =
    Runs-decode limit {pairs = encode_rle bytes} {out = bytes} fits (encode_rle-Runs bytes)

-- Up to the default limit of 256 MiB, `decode_rle` gives back what `encode_rle` was given.
pub decode_rle-encode_rle :
    (bytes : List ℕ) → length bytes ≤ max_decoded_bytes → decode_rle (encode_rle bytes) ≡ ok bytes
unfolding decode_rle
decode_rle-encode_rle bytes h =
    decode_rle_bounded-encode_rle bytes max_decoded_bytes (omega arith) ∙ ground arith
