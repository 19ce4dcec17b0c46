-- ===== src/Primitives/Varint/Canonical.antt =====
-- The decoder is strict: what it accepts is what the encoder writes.
use compact_core.Common.{
  ℕ, zero, suc, ◌+◌, ◌*◌, ◌/◌, ◌%◌, ◌^◌, ◌≤◌, ◌<◌, ◌≡◌, refl, sym, ap, ap₂, ◌∙◌, arith, List, [],
  ◌∷◌, ◌++◌, All, IsU64, IsByte, ok, append_assoc, append-nil, inl, inr, ◌↔◌, ◌⊎◌,
}
use compact_core.Common.Masks.{low_seven, top_bit}
use compact_core.Primitives.Varint.{encode_value, encode_u64, encoded_len, decode_loop, decode_u64}
use compact_core.Primitives.Varint.Digits.{
  encode_value-small, encode_value-large, encoded_len-small, encoded_len-large, add_part-eq,
  group-lt,
}
use compact_core.Primitives.Varint.RoundTrip.{decode_u64-encode_u64}
use native.Mathlib.Nat.{pow-suc}

-- The `j` low groups of `v` as bytes with the continuation bit.
unfoldable pub leading : ℕ → ℕ → List ℕ
leading zero v = []
leading (suc j) v = (v % 128 + 128) ∷ leading j (v / 128)

pub leading-suc :
    (j v p : ℕ) (rest : List ℕ)
    → v < 128 ^ j
    → p < 128
    → leading (suc j) (v + p * 128 ^ j) ++ rest ≡ leading j v ++ (p + 128) ∷ rest
unfolding leading
leading-suc zero v p rest hv hp = ap (λ t. t ∷ rest) (omega arith)
leading-suc (suc j) v p rest hv hp =
    let e : p * 128 ^ suc j ≡ 128 * (p * 128 ^ j) =
      omega (arith, ap (λ (t : ℕ). p * t) (pow-suc 128 j)) in
    ap₂ ◌∷◌ (omega arith) (
      ap (λ t. leading (suc j) t ++ rest) {y = v / 128 + p * 128 ^ j} (omega arith)
      ∙ leading-suc j (v / 128) p rest (omega (arith, pow-suc 128 j)) hp)

-- A value whose length is right was written as its leading groups and a last byte.
pub encode_value-leading :
    (j v p : ℕ) (rest : List ℕ)
    → v < 128 ^ j
    → p < 128
    → encoded_len (v + p * 128 ^ j) ≡ j + 1
    → encode_value (v + p * 128 ^ j) ++ rest ≡ leading j v ++ p ∷ rest
unfolding leading
encode_value-leading zero v p rest hv hp len =
    ap (λ t. encode_value t ++ rest) {y = p} (omega arith)
    ∙ ap (λ t. t ++ rest) (encode_value-small p hp)
encode_value-leading (suc j) v p rest hv hp len =
    let x = v + p * 128 ^ suc j in
    let e : p * 128 ^ suc j ≡ 128 * (p * 128 ^ j) =
      omega (arith, ap (λ (t : ℕ). p * t) (pow-suc 128 j)) in
    let large : 128 ≤ x = ground (arith, encoded_len-small x) in
    let above : x / 128 ≡ v / 128 + p * 128 ^ j = omega arith in
    ap (λ t. t ++ rest) (encode_value-large x large)
    ∙ ap₂ ◌∷◌ (omega arith) (
        ap (λ t. encode_value t ++ rest) above
        ∙ encode_value-leading j (v / 128) p rest (omega (arith, pow-suc 128 j)) hp
            (omega (arith, encoded_len-large x large, ap encoded_len above)))

-- The two ways in which the loop goes on from a byte without an error.
decode_loop-cons_ok :
    (b j v : ℕ) (rest out values : List ℕ)
    → b < 256
    → j ≤ 9
    → v < 128 ^ j
    → decode_loop (b ∷ rest) v (7 * j) j out ≡ ok values
    → ((b < 128)
        × (v + b * 128 ^ j < 2 ^ 64)
        × (encoded_len (v + b * 128 ^ j) ≡ j + 1)
        × (decode_loop rest 0 0 0 (out ++ (v + b * 128 ^ j) ∷ []) ≡ ok values))
      ⊎ ((128 ≤ b)
          × (j < 9)
          × (decode_loop rest (v + b % 128 * 128 ^ j) (7 * (j + 1)) (j + 1) out ≡ ok values))
unfolding decode_loop
decode_loop-cons_ok b j v rest out values hb hj hv h =
    ground (arith, low_seven b hb, top_bit b hb, add_part-eq j v (b % 128) hj hv)

encode_u64-cons :
    (x : ℕ) (rest news : List ℕ)
    → leading 0 0 ++ rest ≡ encode_u64 news
    → encode_value x ++ rest ≡ encode_u64 (x ∷ news)
unfolding encode_u64 leading
encode_u64-cons x rest news e = ap (λ t. encode_value x ++ t) e

-- From a state inside an integer: the bytes written for it and the input left are an encoding.
decode_loop-canonical :
    (rest : List ℕ) (j v : ℕ) (out values : List ℕ)
    → All IsByte rest
    → j ≤ 9
    → v < 128 ^ j
    → decode_loop rest v (7 * j) j out ≡ ok values
    → (news : List ℕ) × (values ≡ out ++ news)
      × (leading j v ++ rest ≡ encode_u64 news)
      × All IsU64 news
decode_loop-canonical [] zero v out values bytes hj hv h =
    ([], unfold decode_loop in cc (append-nil out), unfold leading encode_u64 in refl, tt)
decode_loop-canonical [] (suc j) v out values bytes hj hv h =
    absurd (unfold decode_loop in ground arith)
decode_loop-canonical (b ∷ rest) j v out values bytes hj hv h =
    elim (decode_loop-cons_ok b j v rest out values bytes.0 hj hv h) [
      | inl (small, fits, len, more) ↦
          let x = v + b * 128 ^ j in
          let (news, e, written, words) =
            decode_loop-canonical rest 0 0 (out ++ x ∷ []) values bytes.1 (omega arith)
              (omega arith) more in
          (
            x ∷ news,
            e ∙ append_assoc out (x ∷ []) news,
            sym (encode_value-leading j v b rest hv small len)
                ∙ encode_u64-cons x rest news written,
            (fits, words),
          )
      | inr (large, inner, more) ↦
          let v' = v + b % 128 * 128 ^ j in
          let (news, e, written, words) =
            decode_loop-canonical rest (j + 1) v' out values bytes.1 (omega arith)
              (group-lt j v (b % 128) hv (omega arith)) more in
          (
            news,
            e,
            ap (λ t. leading j v ++ t ∷ rest) (omega arith)
                ∙ sym (leading-suc j v (b % 128) rest hv (omega arith))
                ∙ ap (λ t. leading t v' ++ rest) (omega arith)
                ∙ written,
            words,
          )
    ]

-- `decode_u64` accepts exactly the encodings: a byte slice decodes to `values` if and only if these
-- are u64 values and `encode_u64` writes that slice for them.
pub decode_u64_iff :
    (bytes values : List ℕ)
    → All IsByte bytes
    → (decode_u64 bytes ≡ ok values) ↔ ((encode_u64 values ≡ bytes) × All IsU64 values)
unfolding decode_u64 leading
decode_u64_iff bytes values h = (
  λ e.
      let (news, same, written, words) =
        decode_loop-canonical bytes 0 0 [] values h (omega arith) (omega arith) e in
      (rw same (sym written), rw same words),
  λ p. rw (← p.0) (decode_u64-encode_u64 values p.1),
)
