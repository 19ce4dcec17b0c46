-- ===== src/Cmp3/Strings/Prefixes.antt =====
-- Texts without the prefix that they share with the one before.
use compact_core.Common.{
  ℕ, ◌^◌, ◌≤◌, ◌<◌, ◌≡◌, refl, ap, ap₂, ◌∙◌, arith, List, [], ◌∷◌, ◌++◌, true, leb, ◌==◌, ==_iff,
  Bool-cases, inl, inr, length, length-append, length-drop, append_assoc, append-nil, take, drop,
  All, ok,
}
use compact_core.Cursor.At.{At, At-start, At-end, read-At, read_one-At, length-encode_u64_least}
use compact_core.Primitives.Varint.{encode_u64}
use compact_core.Cmp3.Strings.{common_prefix, encode_prefix_from, encode_prefix}
use compact_core.Cmp3.Strings.Read.{read_suffixes, decode_prefix}
use compact_core.Cmp3.Strings.Stored.{IsText, read_exact-At}

-- The shared prefix of the previous text with the suffix is the text.
pub common_prefix-rebuilt :
    (previous value : List ℕ)
    → (take (common_prefix previous value) previous ++ drop (common_prefix previous value) value
        ≡ value)
      × (common_prefix previous value ≤ length previous)
      × (common_prefix previous value ≤ length value)
unfolding common_prefix
common_prefix-rebuilt [] value = (refl, omega arith, omega arith)
common_prefix-rebuilt (x ∷ previous) [] = (refl, omega arith, omega arith)
common_prefix-rebuilt (x ∷ previous) (y ∷ value) =
    let (same, most, least) = common_prefix-rebuilt previous value in
    elim (Bool-cases (x == y)) [
      | inl e ↦ rw (e) (ap₂ ◌∷◌ ((==_iff x y).0 e) same, omega arith, omega arith)
      | inr e ↦ rw (e) (refl, omega arith, omega arith)
    ]

module _ (bytes : List ℕ) (fits : length bytes < 2 ^ 64) where
  read_suffixes-At :
      (cursor : ℕ) (previous : List ℕ) (values : List (List ℕ)) (back : List ℕ)
      → All IsText values
      → At bytes cursor (encode_prefix_from previous values ++ back)
      → (next : ℕ) × (read_suffixes bytes (length values) previous cursor ≡ ok (values, next))
        × At bytes next back
  unfolding read_suffixes encode_prefix_from
  read_suffixes-At cursor previous [] back texts at = (cursor, refl, at)
  read_suffixes-At cursor previous (value ∷ values) back ((text, short), texts) at =
      let shared = common_prefix previous value in
      let suffix = drop shared value in
      let rest = encode_prefix_from value values in
      let (same, most, least) = common_prefix-rebuilt previous value in
      let split =
        append_assoc (encode_u64 (shared ∷ length suffix ∷ [])) (suffix ++ rest) back
        ∙ ap (λ (t : List ℕ). encode_u64 (shared ∷ length suffix ∷ []) ++ t)
            (append_assoc suffix rest back) in
      let (c1, r1, a1) =
        read-At bytes cursor shared (length suffix ∷ []) (suffix ++ (rest ++ back)) (omega arith)
          (rw (split) at at) in
      let (c2, r2, a2) =
        read_one-At bytes c1 (length suffix) (suffix ++ (rest ++ back))
          (omega (arith, length-drop shared value)) a1 in
      let (c3, r3, a3) = read_exact-At bytes fits c2 suffix (rest ++ back) a2 in
      let (c4, r4, a4) = read_suffixes-At c3 value values back texts a3 in
      let within : leb shared (length previous) ≡ true = ground arith in
      (c4, rw (r1, r2, within, r3, same, text, r4) refl, a4)

pub decode_prefix-encode_prefix :
    (values : List (List ℕ))
    → All IsText values
    → length (encode_prefix values) < 2 ^ 64
    → decode_prefix (encode_prefix values) (length values) ≡ ok values
unfolding decode_prefix
decode_prefix-encode_prefix values texts fits =
    let bytes = encode_prefix values in
    let start : At bytes 0 (encode_prefix values ++ []) =
      rw (append-nil (encode_prefix values)) (At-start bytes) in
    let (cursor, reads, at) = read_suffixes-At bytes fits 0 [] values [] texts start in
    let ended : (cursor == length bytes) ≡ true =
      (==_iff cursor (length bytes)).1 (At-end bytes cursor at) in
    rw (reads, ended) refl

pub length-encode_prefix_least :
    (previous : List ℕ) (values : List (List ℕ))
    → length values ≤ length (encode_prefix_from previous values)
unfolding encode_prefix_from
length-encode_prefix_least previous [] = omega arith
length-encode_prefix_least previous (value ∷ values) =
    let shared = common_prefix previous value in
    let suffix = drop shared value in
    omega (
      arith,
      length-append (encode_u64 (shared ∷ length suffix ∷ []))
          (suffix ++ encode_prefix_from value values),
      length-append suffix (encode_prefix_from value values),
      length-encode_u64_least (shared ∷ length suffix ∷ []),
      length-encode_prefix_least value values,
    )
