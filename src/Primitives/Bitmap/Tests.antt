-- ===== src/Primitives/Bitmap/Tests.antt =====
-- The source's tests, and the theorem at a concrete input.
use compact_core.Common.{◌≡◌, refl, List, [], ◌∷◌, Bool, true, false, ok, err}
use compact_core.Primitives.Bitmap.{encode, decode, non_zero_padding, wrong_length}
use compact_core.Primitives.Bitmap.RoundTrip.{decode-encode}

abbrev nine_bits : List Bool
nine_bits = true ∷ false ∷ true ∷ true ∷ false ∷ false ∷ true ∷ false ∷ true ∷ []

crosses_bytes : encode nine_bits ≡ 77 ∷ 1 ∷ []
unfolding encode
crosses_bytes = refl

refusals :
    (decode (77 ∷ 1 ∷ 0 ∷ []) 9 ≡ err wrong_length)
    × (decode (77 ∷ 3 ∷ []) 9 ≡ err non_zero_padding)
unfolding decode
refusals = (refl, refl)

decode-encode_example : decode (encode nine_bits) 9 ≡ ok nine_bits
decode-encode_example = decode-encode nine_bits
