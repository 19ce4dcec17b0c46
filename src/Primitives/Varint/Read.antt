-- ===== src/Primitives/Varint/Read.antt =====
-- `read_u64`: one integer at the cursor.
use compact_core.Common.{
  ℕ, zero, suc, ◌+◌, ◌*◌, ◌/◌, ◌%◌, ◌^◌, ◌≤◌, ◌<◌, ◌≡◌, refl, sym, ap, ap₂, ◌∙◌, arith, List, [],
  ◌∷◌, ◌++◌, length, dec_lt, All, IsU64, IsByte, ok, drop, append-nil, drop-length_append, ◌⊎◌, inl,
  inr, length-drop, All-drop,
}
use compact_core.Common.Masks.{low_seven, top_bit}
use compact_core.Primitives.Varint.{encode_value, encode_u64, encoded_len, read_loop, read_u64}
use compact_core.Primitives.Varint.Digits.{
  encode_value-small, encode_value-large, add_part-eq, top_group, group-lt, split_groups,
}
use compact_core.Primitives.Varint.RoundTrip.{encoded_len-groups}
use compact_core.Primitives.Varint.Canonical.{leading, leading-suc, encode_value-leading}

read_loop-last :
    (j v p cursor : ℕ) (rest : List ℕ)
    → j ≤ 9
    → v < 128 ^ j
    → p < 128
    → (j ≡ 9 → p ≤ 1)
    → (j ≡ 0) ⊎ (0 < p)
    → read_loop (p ∷ rest) cursor v (7 * j) j ≡ (ok (v + p * 128 ^ j), cursor + 1)
unfolding read_loop
read_loop-last j v p cursor rest hj hv hp last top =
    ground (arith, low_seven p, top_bit p, add_part-eq j v p, encoded_len-groups j v p hv hp top)

read_loop-more :
    (j v p cursor : ℕ) (rest : List ℕ)
    → j < 9
    → v < 128 ^ j
    → p < 128
    → read_loop ((p + 128) ∷ rest) cursor v (7 * j) j
      ≡ read_loop rest (cursor + 1) (v + p * 128 ^ j) (7 * (j + 1)) (j + 1)
unfolding read_loop
read_loop-more j v p cursor rest hj hv hp =
    ground (arith, low_seven (p + 128), top_bit (p + 128), add_part-eq j v p)

read_loop-encode_value :
    (n w j v cursor : ℕ) (rest : List ℕ)
    → w < n
    → j ≤ 9
    → v < 128 ^ j
    → v + w * 128 ^ j < 2 ^ 64
    → (j ≡ 0) ⊎ (0 < w)
    → read_loop (encode_value w ++ rest) cursor v (7 * j) j
      ≡ (ok (v + w * 128 ^ j), cursor + length (encode_value w))
read_loop-encode_value zero w j v cursor rest hn hj hv fits top = absurd (omega arith)
read_loop-encode_value (suc n) w j v cursor rest hn hj hv fits top = elim (dec_lt w 128) [
  | yes small ↦
      rw (encode_value-small w small)
        (read_loop-last j v w cursor rest hj hv small (top_group j w v fits) top)
  | no large ↦
      let inner : j < 9 = ground (arith, top_group j w v) in
      rw (encode_value-large w (omega arith)) (
        read_loop-more j v (w % 128) cursor (encode_value (w / 128) ++ rest) inner hv (omega arith)
        ∙ read_loop-encode_value n (w / 128) (j + 1) (v + w % 128 * 128 ^ j) (cursor + 1) rest
            (omega arith) (omega arith) (group-lt j v (w % 128) hv (omega arith))
            (omega (arith, split_groups j w)) (inr (omega arith))
        ∙ ap₂ (λ (x c : ℕ). (ok x, c)) (omega (arith, split_groups j w)) (omega arith))
]

-- Wherever the bytes of a u64 value stand, `read_u64` at their start returns the value and moves the
-- cursor to the byte behind them, whatever follows.
pub read_u64-encode_u64 :
    (front : List ℕ) (v : ℕ) (back : List ℕ)
    → IsU64 v
    → read_u64 (front ++ (encode_u64 (v ∷ []) ++ back)) (length front)
      ≡ (ok v, length front + length (encode_u64 (v ∷ [])))
unfolding read_u64 encode_u64
read_u64-encode_u64 front v back h =
    rw (append-nil (encode_value v), drop-length_append front (encode_value v ++ back))
      (read_loop-encode_value (suc v) v 0 0 (length front) back (omega arith) (omega arith)
          (omega arith) (omega arith) (inl refl)
        ∙ ap (λ (x : ℕ). (ok x, length front + length (encode_value v))) (omega arith))

read_loop-cons_ok :
    (b j v cursor : ℕ) (rest : List ℕ) (x cursor' : ℕ)
    → b < 256
    → j ≤ 9
    → v < 128 ^ j
    → read_loop (b ∷ rest) cursor v (7 * j) j ≡ (ok x, cursor')
    → ((b < 128)
        × (v + b * 128 ^ j < 2 ^ 64)
        × (encoded_len (v + b * 128 ^ j) ≡ j + 1)
        × (x ≡ v + b * 128 ^ j)
        × (cursor' ≡ cursor + 1))
      ⊎ ((128 ≤ b)
          × (j < 9)
          × (read_loop rest (cursor + 1) (v + b % 128 * 128 ^ j) (7 * (j + 1)) (j + 1)
              ≡ (ok x, cursor')))
unfolding read_loop
read_loop-cons_ok b j v cursor rest x cursor' hb hj hv h =
    ground (arith, low_seven b hb, top_bit b hb, add_part-eq j v (b % 128) hj hv)

read_loop-canonical :
    (rest : List ℕ) (j v cursor x cursor' : ℕ)
    → All IsByte rest
    → j ≤ 9
    → v < 128 ^ j
    → read_loop rest cursor v (7 * j) j ≡ (ok x, cursor')
    → (back : List ℕ) × (leading j v ++ rest ≡ encode_value x ++ back)
      × (cursor' + length back ≡ cursor + length rest)
      × IsU64 x
read_loop-canonical [] j v cursor x cursor' bytes hj hv h =
    absurd (unfold read_loop in ground arith)
read_loop-canonical (b ∷ rest) j v cursor x cursor' bytes hj hv h =
    elim (read_loop-cons_ok b j v cursor rest x cursor' bytes.0 hj hv h) [
      | inl (small, fits, len, same, moved) ↦ (
        rest,
        sym (encode_value-leading j v b rest hv small len) ∙ rw same,
        omega arith,
        rw same fits,
      )
      | inr (large, inner, more) ↦
          let v' = v + b % 128 * 128 ^ j in
          let (back, written, count, word) =
            read_loop-canonical rest (j + 1) v' (cursor + 1) x cursor' bytes.1 (omega arith)
              (group-lt j v (b % 128) hv (omega arith)) more in
          (
            back,
            ap (λ t. leading j v ++ t ∷ rest) (omega arith)
                ∙ sym (leading-suc j v (b % 128) rest hv (omega arith))
                ∙ ap (λ t. leading t v' ++ rest) (omega arith)
                ∙ written,
            omega arith,
            word,
          )
    ]

-- A successful `read_u64` from a cursor inside the slice has read a u64 value in its only encoding:
-- the bytes from the cursor on begin with it, and the new cursor is behind it, still inside.
pub read_u64-canonical :
    (bytes : List ℕ) (cursor x cursor' : ℕ)
    → All IsByte bytes
    → cursor ≤ length bytes
    → read_u64 bytes cursor ≡ (ok x, cursor')
    → (back : List ℕ) × (drop cursor bytes ≡ encode_u64 (x ∷ []) ++ back)
      × (cursor' + length back ≡ length bytes)
      × IsU64 x
unfolding read_u64 encode_u64 leading
read_u64-canonical bytes cursor x cursor' h inside e =
    let (back, written, count, word) =
      read_loop-canonical (drop cursor bytes) 0 0 cursor x cursor' (All-drop IsByte cursor bytes h)
        (omega arith) (omega arith) e in
    (
      back,
      written ∙ ap (λ t. t ++ back) (sym (append-nil (encode_value x))),
      omega (arith, length-drop cursor bytes),
      word,
    )
