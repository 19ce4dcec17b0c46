-- ===== src/Primitives/Delta/Bytes.antt =====
-- The wrapping byte transform.
use compact_core.Common.{
  ◌≡◌, refl, arith, List, [], ◌∷◌, All, IsByte, ap, ap₂, ℕ, ◌%◌, ◌+◌, ◌-◌, ◌∙◌,
}
use compact_core.Primitives.Delta.{encode_delta, decode_delta, encode_bytes_from, decode_bytes_from}

decode-encode_from :
    (previous : ℕ) (bytes : List ℕ)
    → IsByte previous
    → All IsByte bytes
    → decode_bytes_from previous (encode_bytes_from previous bytes) ≡ bytes
unfolding encode_bytes_from decode_bytes_from
decode-encode_from previous [] hp h = refl
decode-encode_from previous (x ∷ xs) hp h =
    let e : (previous + (x + 256 - previous) % 256) % 256 ≡ x = omega arith in
    ap₂ ◌∷◌ e
      (ap (λ t. decode_bytes_from t (encode_bytes_from x xs)) e ∙ decode-encode_from x xs h.0 h.1)

encode-decode_from :
    (previous : ℕ) (deltas : List ℕ)
    → IsByte previous
    → All IsByte deltas
    → encode_bytes_from previous (decode_bytes_from previous deltas) ≡ deltas
unfolding encode_bytes_from decode_bytes_from
encode-decode_from previous [] hp h = refl
encode-decode_from previous (d ∷ ds) hp h =
    ap₂ ◌∷◌ (omega arith) (encode-decode_from ((previous + d) % 256) ds (omega arith) h.1)

-- On bytes the two transforms are inverse to each other, both ways, across the wrap.
decode_delta-encode_delta :
    (bytes : List ℕ)
    → All IsByte bytes
    → (decode_delta (encode_delta bytes) ≡ bytes) × (encode_delta (decode_delta bytes) ≡ bytes)
unfolding encode_delta decode_delta
decode_delta-encode_delta [] h = (refl, refl)
decode_delta-encode_delta (x ∷ xs) h = (
  ap (λ t. x ∷ t) (decode-encode_from x xs h.0 h.1),
  ap (λ t. x ∷ t) (encode-decode_from x xs h.0 h.1),
)
