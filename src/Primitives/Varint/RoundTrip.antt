-- ===== src/Primitives/Varint/RoundTrip.antt =====
-- What `encode_u64` writes, `decode_u64` and `read_u64` read back.
use compact_core.Common.{
  ℕ, zero, suc, ◌+◌, ◌*◌, ◌/◌, ◌%◌, ◌^◌, ◌≤◌, ◌<◌, ◌≡◌, refl, sym, ap, ◌∙◌, arith, List, [], ◌∷◌,
  ◌++◌, dec_lt, All, IsU64, ok, append_assoc, append-nil, ◌⊎◌, inl, inr,
}
use compact_core.Common.Masks.{low_seven, top_bit}
use compact_core.Primitives.Varint.{encode_value, encode_u64, encoded_len, decode_loop, decode_u64}
use compact_core.Primitives.Varint.Digits.{
  encode_value-small, encode_value-large, encoded_len-small, encoded_len-large, add_part-eq,
  top_group, group-lt, split_groups,
}
use native.Mathlib.Nat.{pow-suc, mul-le-mul_right, one-le-pow}

-- A value of `j + 1` groups, the top one not zero, has that length.
pub encoded_len-groups :
    (j v p : ℕ) → v < 128 ^ j → p < 128 → (j ≡ 0) ⊎ (0 < p) → encoded_len (v + p * 128 ^ j) ≡ j + 1
encoded_len-groups zero v p hv hp top = ap encoded_len (omega arith) ∙ encoded_len-small p hp
encoded_len-groups (suc j) v p hv hp top =
    let e : p * 128 ^ suc j ≡ 128 * (p * 128 ^ j) =
      omega (arith, ap (λ (t : ℕ). p * t) (pow-suc 128 j)) in
    let pos : 0 < p = ground arith in
    let one : 1 * 128 ^ j ≤ p * 128 ^ j = mul-le-mul_right (128 ^ j) pos in
    let base : 1 ≤ 128 ^ j = one-le-pow j 128 (omega arith) in
    encoded_len-large (v + p * 128 ^ suc j) (omega arith)
    ∙ ap (λ t. encoded_len t + 1) {y = v / 128 + p * 128 ^ j} (omega arith)
    ∙ ap (λ t. t + 1) (encoded_len-groups j (v / 128) p (omega (arith, pow-suc 128 j)) hp (inr pos))
    ∙ omega arith

-- The last byte of an integer, at position `j`.
decode_loop-last :
    (j v p : ℕ) (rest out : List ℕ)
    → j ≤ 9
    → v < 128 ^ j
    → p < 128
    → (j ≡ 9 → p ≤ 1)
    → (j ≡ 0) ⊎ (0 < p)
    → decode_loop (p ∷ rest) v (7 * j) j out
      ≡ decode_loop rest 0 0 0 (out ++ (v + p * 128 ^ j) ∷ [])
unfolding decode_loop
decode_loop-last j v p rest out hj hv hp last top =
    ground (arith, low_seven p, top_bit p, add_part-eq j v p, encoded_len-groups j v p hv hp top)

-- A byte with the continuation bit.
decode_loop-more :
    (j v p : ℕ) (rest out : List ℕ)
    → j < 9
    → v < 128 ^ j
    → p < 128
    → decode_loop ((p + 128) ∷ rest) v (7 * j) j out
      ≡ decode_loop rest (v + p * 128 ^ j) (7 * (j + 1)) (j + 1) out
unfolding decode_loop
decode_loop-more j v p rest out hj hv hp =
    ground (arith, low_seven (p + 128), top_bit (p + 128), add_part-eq j v p)

-- The loop over the bytes of `w`, which stands from position `j` on, above the value read so far.
decode_loop-encode_value :
    (n w j v : ℕ) (rest out : List ℕ)
    → w < n
    → j ≤ 9
    → v < 128 ^ j
    → v + w * 128 ^ j < 2 ^ 64
    → (j ≡ 0) ⊎ (0 < w)
    → decode_loop (encode_value w ++ rest) v (7 * j) j out
      ≡ decode_loop rest 0 0 0 (out ++ (v + w * 128 ^ j) ∷ [])
decode_loop-encode_value zero w j v rest out hn hj hv fits top = absurd (omega arith)
decode_loop-encode_value (suc n) w j v rest out hn hj hv fits top = elim (dec_lt w 128) [
  | yes small ↦
      rw (encode_value-small w small)
        (decode_loop-last j v w rest out hj hv small (top_group j w v fits) top)
  | no large ↦
      let inner : j < 9 = ground (arith, top_group j w v) in
      rw (encode_value-large w (omega arith)) (
        decode_loop-more j v (w % 128) (encode_value (w / 128) ++ rest) out inner hv (omega arith)
        ∙ decode_loop-encode_value n (w / 128) (j + 1) (v + w % 128 * 128 ^ j) rest out
            (omega arith) (omega arith) (group-lt j v (w % 128) hv (omega arith))
            (omega (arith, split_groups j w)) (inr (omega arith))
        ∙ ap (λ t. decode_loop rest 0 0 0 (out ++ t ∷ [])) (omega (arith, split_groups j w)))
]

decode_loop-encode_u64 :
    (values out : List ℕ)
    → All IsU64 values
    → decode_loop (encode_u64 values) 0 0 0 out ≡ ok (out ++ values)
unfolding encode_u64
decode_loop-encode_u64 [] out h = unfold decode_loop in ap ok (sym (append-nil out))
decode_loop-encode_u64 (v ∷ values) out (hv, hs) =
    decode_loop-encode_value (suc v) v 0 0 (encode_u64 values) out (omega arith) (omega arith)
      (omega arith) (omega arith) (inl refl)
    ∙ ap (λ t. decode_loop (encode_u64 values) 0 0 0 (out ++ t ∷ [])) (omega arith)
    ∙ decode_loop-encode_u64 values (out ++ v ∷ []) hs
    ∙ ap ok (append_assoc out (v ∷ []) values)

-- `decode_u64` gives back every list of u64 values that `encode_u64` was given.
pub decode_u64-encode_u64 :
    (values : List ℕ) → All IsU64 values → decode_u64 (encode_u64 values) ≡ ok values
unfolding decode_u64
decode_u64-encode_u64 values h = decode_loop-encode_u64 values [] h
