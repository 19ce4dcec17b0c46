-- ===== src/Cmp3/Strings/Stored.antt =====
-- Texts behind their lengths: `encode_stored` and the loop that reads them.
use compact_core.Common.{
  ℕ, ◌^◌, ◌≤◌, ◌<◌, ◌≡◌, refl, ap, ◌∙◌, arith, List, [], ◌∷◌, ◌++◌, true, length, length-append,
  append_assoc, append-nil, All, ok, ==_iff, ◌==◌, invalid_input,
}
use compact_core.Common.Text.{is_utf8}
use compact_core.Cursor.At.{
  At, At-start, At-end, read_one-At, section_at-At, length-encode_u64_least,
}
use compact_core.Primitives.Varint.{encode_u64}
use compact_core.Cmp3.Strings.{encode_stored}
use compact_core.Cmp3.Strings.Read.{read_exact, read_text, read_texts, decode_stored}

-- A `String`: its bytes are UTF-8, and its length is a usize.
abbrev pub IsText : List ℕ → Type 0
IsText value = (is_utf8 value ≡ true) × (length value < 2 ^ 64)

module _ (bytes : List ℕ) (fits : length bytes < 2 ^ 64) where
  pub read_exact-At :
      (cursor : ℕ) (section back : List ℕ)
      → At bytes cursor (section ++ back)
      → (next : ℕ) × (read_exact bytes cursor (length section) ≡ ok (section, next))
        × At bytes next back
  read_exact-At cursor section back at =
      section_at-At bytes cursor (length section) section back
        (invalid_input "cmp3 string length overflow")
        (invalid_input "cmp3 string payload is truncated") refl fits at

  read_text-At :
      (cursor : ℕ) (value back : List ℕ)
      → IsText value
      → At bytes cursor (encode_u64 (length value ∷ []) ++ (value ++ back))
      → (next : ℕ) × (read_text bytes cursor ≡ ok (value, next)) × At bytes next back
  unfolding read_text
  read_text-At cursor value back (text, short) at =
      let (c1, r1, a1) = read_one-At bytes cursor (length value) (value ++ back) short at in
      let (c2, r2, a2) = read_exact-At c1 value back a1 in (c2, rw (r1, r2, text) refl, a2)

  pub read_texts-At :
      (cursor : ℕ) (values : List (List ℕ)) (back : List ℕ)
      → All IsText values
      → At bytes cursor (encode_stored values ++ back)
      → (next : ℕ) × (read_texts bytes (length values) cursor ≡ ok (values, next))
        × At bytes next back
  unfolding read_texts encode_stored
  read_texts-At cursor [] back texts at = (cursor, refl, at)
  read_texts-At cursor (value ∷ values) back (text, texts) at =
      let split =
        append_assoc (encode_u64 (length value ∷ [])) (value ++ encode_stored values) back
        ∙ ap (λ (t : List ℕ). encode_u64 (length value ∷ []) ++ t)
            (append_assoc value (encode_stored values) back) in
      let (c1, r1, a1) =
        read_text-At cursor value (encode_stored values ++ back) text (rw (split) at at) in
      let (c2, r2, a2) = read_texts-At c1 values back texts a1 in (c2, rw (r1, r2) refl, a2)

pub decode_stored-encode_stored :
    (values : List (List ℕ))
    → All IsText values
    → length (encode_stored values) < 2 ^ 64
    → decode_stored (encode_stored values) (length values) ≡ ok values
unfolding decode_stored
decode_stored-encode_stored values texts fits =
    let bytes = encode_stored values in
    let start : At bytes 0 (encode_stored values ++ []) =
      rw (append-nil (encode_stored values)) (At-start bytes) in
    let (cursor, reads, at) = read_texts-At bytes fits 0 values [] texts start in
    let ended : (cursor == length bytes) ≡ true =
      (==_iff cursor (length bytes)).1 (At-end bytes cursor at) in
    rw (reads, ended) refl

-- A value takes a byte at least, and its length ten bytes at most.
pub length-encode_stored_least :
    (values : List (List ℕ)) → length values ≤ length (encode_stored values)
unfolding encode_stored
length-encode_stored_least [] = omega arith
length-encode_stored_least (value ∷ values) = omega (
  arith,
  length-append (encode_u64 (length value ∷ [])) (value ++ encode_stored values),
  length-append value (encode_stored values),
  length-encode_u64_least (length value ∷ []),
  length-encode_stored_least values,
)
