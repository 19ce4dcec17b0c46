-- ===== src/Primitives/Zigzag/RoundTrip.antt =====
-- The mapping in closed form, and its two inverses.
use compact_core.Common.{
  ℕ, ◌+◌, ◌-◌, ◌*◌, ◌/◌, ◌%◌, ◌^◌, ◌<◌, ◌≡◌, refl, sym, ap, ap₂, ◌∙◌, arith, List, [], ◌∷◌, All,
  IsU64, dec_lt,
}
use compact_core.Common.Bits.{bit_xor-zero, bit_xor-ones, bit_and-one}
use compact_core.Common.Int.{ℤ, pos, negsuc, IsI64}
use compact_core.Primitives.Zigzag.{encode_i64, decode_u64, encode_i64_slice, decode_u64_slice}

-- The order of the mapping: 0, -1, 1, -2, 2 and so on.
abbrev pub interleaved : ℤ → ℕ
interleaved (pos n) = 2 * n
interleaved (negsuc n) = 2 * n + 1

-- On every i64 the shifts and the exclusive or compute the interleaving: `n` goes to `2 * n`, and
-- `-(n + 1)` to `2 * n + 1`.
pub encode_i64-interleaved : (value : ℤ) → IsI64 value → encode_i64 value ≡ interleaved value
unfolding encode_i64
encode_i64-interleaved (pos n) h = ground (arith, bit_xor-zero (n * 2 % 2 ^ 64))
encode_i64-interleaved (negsuc n) h =
    ground (arith, bit_xor-ones 64 ((2 ^ 64 - 1 - n) * 2 % 2 ^ 64))

decode_u64-interleaved : (value : ℤ) → IsI64 value → decode_u64 (interleaved value) ≡ value
unfolding decode_u64
decode_u64-interleaved (pos n) h = ground (arith, bit_and-one (2 * n), bit_xor-zero n)
decode_u64-interleaved (negsuc n) h = ground (arith, bit_and-one (2 * n + 1), bit_xor-ones 64 n)

interleaved-lt : (value : ℤ) → IsI64 value → interleaved value < 2 ^ 64
interleaved-lt (pos n) h = omega arith
interleaved-lt (negsuc n) h = omega arith

-- Every u64 is the code of one i64.
interleaved-onto : (code : ℕ) → IsU64 code → (value : ℤ) × IsI64 value × (interleaved value ≡ code)
interleaved-onto code h = elim (dec_lt (code % 2) 1) [
  | yes even ↦ (pos (code / 2), omega arith, omega arith)
  | no odd ↦ (negsuc (code / 2), omega arith, omega arith)
]

-- An i64 is encoded as a u64 that decodes to it.
pub decode_u64-encode_i64 :
    (value : ℤ) → IsI64 value → IsU64 (encode_i64 value) × (decode_u64 (encode_i64 value) ≡ value)
decode_u64-encode_i64 value h =
    rw (encode_i64-interleaved value h) (interleaved-lt value h, decode_u64-interleaved value h)

-- A u64 is decoded to an i64 that encodes to it.
pub encode_i64-decode_u64 :
    (code : ℕ) → IsU64 code → IsI64 (decode_u64 code) × (encode_i64 (decode_u64 code) ≡ code)
encode_i64-decode_u64 code h =
    let (value, range, e) = interleaved-onto code h in
    let back : decode_u64 code ≡ value =
      ap decode_u64 (sym e) ∙ decode_u64-interleaved value range in
    rw back (range, encode_i64-interleaved value range ∙ e)

-- The slice forms are inverse too.
pub decode_u64_slice-encode_i64_slice :
    (values : List ℤ)
    → All IsI64 values
    → All IsU64 (encode_i64_slice values) × (decode_u64_slice (encode_i64_slice values) ≡ values)
unfolding encode_i64_slice decode_u64_slice
decode_u64_slice-encode_i64_slice [] h = (tt, refl)
decode_u64_slice-encode_i64_slice (value ∷ values) (hv, hs) =
    let (fits, back) = decode_u64-encode_i64 value hv in
    let (all_fit, all_back) = decode_u64_slice-encode_i64_slice values hs in
    ((fits, all_fit), ap₂ ◌∷◌ back all_back)
