-- ===== src/Pipeline/RoundTrip.antt =====
-- The two stages together.
use compact_core.Common.{
  length, ◌≤◌, ◌*◌, ℕ, ◌≡◌, ap, arith, List, ok, err, All, IsU64, IsByte, ◌↔◌, >>=-eq-ok,
  invalid_input,
}
use compact_core.Primitives.Delta.{encode_delta_u64, decode_delta_u64}
use compact_core.Primitives.Delta.Unsigned.{
  NonDecreasing, encode_delta_u64_iff, encode_delta_u64_domain, encode_delta_u64-IsU64,
  encode_delta_u64-length,
}
use compact_core.Primitives.Varint.Canonical.{decode_u64_iff}
use compact_core.Primitives.Varint.RoundTrip.{decode_u64-encode_u64}
use compact_core.Primitives.Varint.Size.{length-encode_u64_most}
use compact_core.Primitives.Varint
use compact_core.Pipeline.{encode_u64, decode_u64}

-- Whatever `encode_u64` returns for u64 values, `decode_u64` takes back.
pub encode_u64→decode_u64 :
    (values bytes : List ℕ)
    → All IsU64 values
    → encode_u64 values ≡ ok bytes
    → decode_u64 bytes ≡ ok values
unfolding encode_u64 decode_u64
encode_u64→decode_u64 values bytes words h =
    let (deltas, e, written) =
      >>=-eq-ok (λ ds. ok (Varint.encode_u64 ds)) (encode_delta_u64 values) h in
    let same : Varint.encode_u64 deltas ≡ bytes = cc in
    rw (← same, decode_u64-encode_u64 deltas (encode_delta_u64-IsU64 values deltas words e))
      ((encode_delta_u64_iff values deltas words).0 e)

-- The pipeline is a bijection between the non-decreasing series and the byte strings that it accepts:
-- for u64 values and bytes, `bytes` is what the encoder returns for `values` if and only if `values`
-- is what the decoder returns for `bytes`.
pub encode_u64_iff :
    (values bytes : List ℕ)
    → All IsU64 values
    → All IsByte bytes
    → (encode_u64 values ≡ ok bytes) ↔ (decode_u64 bytes ≡ ok values)
encode_u64_iff values bytes words octets = (encode_u64→decode_u64 values bytes words, back)
  where
    back : decode_u64 bytes ≡ ok values → encode_u64 values ≡ ok bytes
    back h =
        unfold encode_u64 decode_u64 in
        let (deltas, e, rebuilt) = >>=-eq-ok decode_delta_u64 (Varint.decode_u64 bytes) h in
        let (written, fits) = (decode_u64_iff bytes deltas octets).0 e in
        rw ((encode_delta_u64_iff values deltas words).1 rebuilt) (ap ok written)

-- The encoder succeeds on a non-decreasing series of u64 values, with bytes that decode to it, and
-- refuses any other with the error of a negative delta.
pub encode_u64_domain :
    (values : List ℕ)
    → All IsU64 values
    → (NonDecreasing values
        → (bytes : List ℕ) × (encode_u64 values ≡ ok bytes) × (decode_u64 bytes ≡ ok values))
      × (¬ NonDecreasing values
          → encode_u64 values ≡ err (invalid_input "u64 delta cannot be negative"))
unfolding encode_u64
encode_u64_domain values words =
    let (sorted, unsorted) = encode_delta_u64_domain values in
    (
      λ s.
          let (deltas, e) = sorted s in
          let written : encode_u64 values ≡ ok (Varint.encode_u64 deltas) = rw e in
          (
            Varint.encode_u64 deltas,
            written,
            encode_u64→decode_u64 values (Varint.encode_u64 deltas) words written,
          ),
      λ u. rw (unsorted u),
    )

-- The output has at most ten bytes for each value.
pub length-encode_u64 :
    (values bytes : List ℕ)
    → All IsU64 values
    → encode_u64 values ≡ ok bytes
    → length bytes ≤ 10 * length values
unfolding encode_u64
length-encode_u64 values bytes words h =
    let (deltas, e, written) =
      >>=-eq-ok (λ ds. ok (Varint.encode_u64 ds)) (encode_delta_u64 values) h in
    let same : Varint.encode_u64 deltas ≡ bytes = cc in
    omega (
      arith,
      ap length same,
      encode_delta_u64-length values deltas e,
      length-encode_u64_most deltas (encode_delta_u64-IsU64 values deltas words e),
    )
