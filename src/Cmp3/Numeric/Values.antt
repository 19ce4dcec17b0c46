-- ===== src/Cmp3/Numeric/Values.antt =====
-- The four codecs of numeric.rs on the values of a column: what is written decodes to them.
use compact_core.Common.{
  ℕ, suc, ◌+◌, ◌-◌, ◌*◌, ◌^◌, ◌≤◌, ◌≡◌, refl, ap, ap₂, ◌∙◌, arith, List, [], ◌∷◌, ◌++◌, true, not,
  ◌||◌, ltb, leb, ◌==◌, ==_iff, length, length-append, get_or, take, drop, to_le_bytes,
  from_le_bytes, length-to_le_bytes, from_le_bytes-to_le_bytes, take-append_exact,
  drop-append_exact, All, IsU64, ok,
}
use compact_core.Framing.Sealed.{==_self}
use compact_core.Pipeline.RoundTrip.{encode_u64_domain}
use compact_core.Primitives.Bitpack
use compact_core.Primitives.Bitpack.{max_decoded_values}
use compact_core.Primitives.Bitpack.RoundTrip.{packed, encode_u64-packed, decode_u64-packed}
use compact_core.Primitives.Delta.Unsigned.{NonDecreasing, NonDecreasingFrom}
use compact_core.Schema.{
  SchemaCodec, auto, bitmap, bitpack, delta_bitpack, dictionary, delta_varint_u64, prefix, rle,
  stored,
}
use compact_core.Cmp3.Numeric.{
  required_width, max_of, or_zero, first_or, deltas_from, sums_from, encode_delta_bitpack,
  stored_bytes, encode_values, expected_metadata_len, has_width, decode_delta_bitpack, chunks,
  decode_stored, decode_values,
}
use compact_core.Cmp3.Numeric.Width.{required_width-InWidth}

-- The values that a codec can write.
abbrev pub Suited : SchemaCodec → List ℕ → Type 0
Suited bitpack values = Unit
Suited stored values = Unit
Suited delta_bitpack values = NonDecreasing values
Suited delta_varint_u64 values = NonDecreasing values
Suited codec values = ⊥

-- What the checks and the decoder need of the codec metadata and the bytes of some values.
pub record Encoded (codec : SchemaCodec) (values metadata bytes : List ℕ) : Type 0 where
  pub metadata_len : ℕ
  pub expected : expected_metadata_len codec ≡ ok metadata_len
  pub measured : length metadata ≡ metadata_len
  pub counted : from_le_bytes (drop (metadata_len - 8) metadata) ≡ length values
  pub narrow : (not (has_width codec) || leb (get_or metadata 0 0) 64) ≡ true
  pub decoded : decode_values codec metadata bytes (length values) ≡ ok values

-- The differences, which are added up again.
deltas_from-sums_from :
    (previous : ℕ) (values : List ℕ)
    → NonDecreasingFrom previous values
    → All IsU64 values
    → (deltas : List ℕ) × (deltas_from previous values ≡ ok deltas)
      × (sums_from previous deltas ≡ ok values)
      × (length deltas ≡ length values)
      × All IsU64 deltas
unfolding deltas_from sums_from
deltas_from-sums_from previous [] order words = ([], refl, refl, refl, tt)
deltas_from-sums_from previous (value ∷ values) (first, others) (word, words) =
    let (deltas, e, summed, size, small) = deltas_from-sums_from value values others words in
    let below : leb previous value ≡ true = ground arith in
    let back : previous + (value - previous) ≡ value = omega arith in
    let room : ltb value (2 ^ 64) ≡ true = ground arith in
    (
      (value - previous) ∷ deltas,
      rw (below, e) refl,
      rw (back, room, summed) refl,
      ap suc size,
      (omega arith, small),
    )

decode_stored-stored_bytes :
    (values : List ℕ)
    → All IsU64 values
    → (chunks (length values) (stored_bytes values) ≡ values)
      × (length (stored_bytes values) ≡ length values * 8)
unfolding chunks stored_bytes
decode_stored-stored_bytes [] words = (refl, refl)
decode_stored-stored_bytes (value ∷ values) (word, words) =
    let (same, size) = decode_stored-stored_bytes values words in
    let eight = length-to_le_bytes 8 value in
    (
      ap₂ ◌∷◌
          (ap from_le_bytes (take-append_exact 8 (to_le_bytes 8 value) (stored_bytes values) eight)
            ∙ from_le_bytes-to_le_bytes 8 value word)
          (ap (chunks (length values))
              (drop-append_exact 8 (to_le_bytes 8 value) (stored_bytes values) eight)
            ∙ same),
      omega (arith, length-append (to_le_bytes 8 value) (stored_bytes values), eight, size),
    )

leb_of_le : (a b : ℕ) → a ≤ b → leb a b ≡ true
leb_of_le a b h = ground arith

first_order :
    (values : List ℕ) → NonDecreasing values → NonDecreasingFrom (first_or values 0) values
first_order [] order = tt
first_order (value ∷ values) order = (omega arith, order)

first_or-IsU64 : (values : List ℕ) → All IsU64 values → IsU64 (first_or values 0)
first_or-IsU64 [] words = omega arith
first_or-IsU64 (value ∷ values) words = words.0

module _ (values : List ℕ) (words : All IsU64 values)
    (few : length values ≤ max_decoded_values) where
  count_back : from_le_bytes (to_le_bytes 8 (length values)) ≡ length values
  count_back = from_le_bytes-to_le_bytes 8 (length values) (omega (arith, few))

  bitpack-Encoded :
      (encoded : List ℕ × List ℕ) × (encode_values bitpack values ≡ ok encoded)
      × Encoded bitpack values encoded.0 encoded.1
  unfolding encode_values decode_values
  bitpack-Encoded =
      let width = required_width (or_zero (max_of values)) in
      let fits = required_width-InWidth values words in
      (
        (width ∷ to_le_bytes 8 (length values), packed width values),
        rw (encode_u64-packed width values fits few) refl,
        record {
          metadata_len = 9;
          expected = refl;
          measured = omega (arith, length-to_le_bytes 8 (length values));
          counted = count_back;
          narrow = leb_of_le (required_width (or_zero (max_of values))) 64 fits.0;
          decoded = decode_u64-packed width values fits few;
        },
      )

  stored-Encoded :
      (encoded : List ℕ × List ℕ) × (encode_values stored values ≡ ok encoded)
      × Encoded stored values encoded.0 encoded.1
  unfolding encode_values decode_values decode_stored
  stored-Encoded =
      let (same, size) = decode_stored-stored_bytes values words in
      let room : ltb (length values * 8) (2 ^ 64) ≡ true = ground (arith, few) in
      let exact : (length (stored_bytes values) == length values * 8) ≡ true =
        (==_iff _ _).1 size in
      (
        (to_le_bytes 8 (length values), stored_bytes values),
        refl,
        record {
          metadata_len = 8;
          expected = refl;
          measured = length-to_le_bytes 8 (length values);
          counted = count_back;
          narrow = refl;
          decoded = rw (room, exact, same) refl;
        },
      )

  delta_varint-Encoded :
      NonDecreasing values
      → (encoded : List ℕ × List ℕ) × (encode_values delta_varint_u64 values ≡ ok encoded)
        × Encoded delta_varint_u64 values encoded.0 encoded.1
  unfolding encode_values decode_values
  delta_varint-Encoded order =
      let (bytes, e, back) = (encode_u64_domain values words).0 order in
      (
        (to_le_bytes 8 (length values), bytes),
        rw (e) refl,
        record {
          metadata_len = 8;
          expected = refl;
          measured = length-to_le_bytes 8 (length values);
          counted = count_back;
          narrow = refl;
          decoded = rw (back, ==_self (length values)) refl;
        },
      )

  delta_bitpack-Encoded :
      NonDecreasing values
      → (encoded : List ℕ × List ℕ) × (encode_values delta_bitpack values ≡ ok encoded)
        × Encoded delta_bitpack values encoded.0 encoded.1
  unfolding encode_values encode_delta_bitpack decode_values decode_delta_bitpack
  delta_bitpack-Encoded order =
      let base = first_or values 0 in
      let (deltas, e, summed, size, small) =
        deltas_from-sums_from base values (first_order values order) words in
      let width = required_width (or_zero (max_of deltas)) in
      let fits = required_width-InWidth deltas small in
      let enough : length deltas ≤ max_decoded_values = omega (arith, few, size) in
      let unpacked : Bitpack.decode_u64 (packed width deltas) width (length values) ≡ ok deltas =
        rw (size) at (decode_u64-packed width deltas fits enough) in
      let low = to_le_bytes 8 base in
      let high = to_le_bytes 8 (length values) in
      let eight = length-to_le_bytes 8 base in
      let first : from_le_bytes (take 8 (low ++ high)) ≡ base =
        ap from_le_bytes (take-append_exact 8 low high eight)
        ∙ from_le_bytes-to_le_bytes 8 base (first_or-IsU64 values words) in
      (
        (width ∷ (low ++ high), packed width deltas),
        rw (e, encode_u64-packed width deltas fits enough) refl,
        record {
          metadata_len = 17;
          expected = refl;
          measured =
              omega (arith, length-append low high, eight, length-to_le_bytes 8 (length values));
          counted = ap from_le_bytes (drop-append_exact 8 low high eight) ∙ count_back;
          narrow = leb_of_le width 64 fits.0;
          decoded = rw (unpacked, first, summed) refl;
        },
      )

-- Every codec on the values it can write.
pub encode_values-Encoded :
    (codec : SchemaCodec) (values : List ℕ)
    → Suited codec values
    → All IsU64 values
    → length values ≤ max_decoded_values
    → (encoded : List ℕ × List ℕ) × (encode_values codec values ≡ ok encoded)
      × Encoded codec values encoded.0 encoded.1
encode_values-Encoded bitpack values suited words few = bitpack-Encoded values words few
encode_values-Encoded stored values suited words few = stored-Encoded values words few
encode_values-Encoded delta_bitpack values suited words few =
    delta_bitpack-Encoded values words few suited
encode_values-Encoded delta_varint_u64 values suited words few =
    delta_varint-Encoded values words few suited
encode_values-Encoded auto values suited words few = absurd suited
encode_values-Encoded bitmap values suited words few = absurd suited
encode_values-Encoded dictionary values suited words few = absurd suited
encode_values-Encoded prefix values suited words few = absurd suited
encode_values-Encoded rle values suited words few = absurd suited
