-- ===== src/Cmp3/Strings/Values.antt =====
-- The four codecs of string.rs on the values of a column: what is written decodes to them.
use compact_core.Common.{
  ℕ, ◌+◌, ◌*◌, ◌^◌, ◌≤◌, ◌<◌, ◌≡◌, refl, sym, ap, ◌∙◌, arith, List, [], ◌∷◌, ◌++◌, true, ◌||◌, ltb,
  leb, length, length-append, All, min, ok, >>=-eq-ok, CompactError, invalid_input,
}
use compact_core.Primitives.Delta.Unsigned.{checked_add-sum}
use compact_core.Primitives.Delta.{checked_add, ok_or}
use compact_core.Primitives.Bitpack.{max_decoded_values}
use compact_core.Primitives.Rle.{encode_rle, decode_rle_bounded, max_decoded_bytes}
use compact_core.Primitives.Rle.Decoder.{decode_rle_bounded-encode_rle}
use compact_core.Primitives.Varint.{encode_u64}
use compact_core.Primitives.Varint.Size.{length-encode_u64_most}
use compact_core.Schema.{
  SchemaCodec, auto, bitmap, bitpack, delta_bitpack, dictionary, delta_varint_u64, prefix, rle,
  stored,
}
use compact_core.Cmp3.Strings.{encode_stored, encode_prefix, encode_values, raw_size_from}
use compact_core.Cmp3.Strings.Read.{decode_rle_stored, decode_values, is_rle}
use compact_core.Cmp3.Strings.Stored.{
  IsText, decode_stored-encode_stored, length-encode_stored_least,
}
use compact_core.Cmp3.Strings.Prefixes.{decode_prefix-encode_prefix, length-encode_prefix_least}
use compact_core.Cmp3.Strings.Entries.{decode_dictionary-encode_dictionary}

abbrev size_refused : CompactError
size_refused = invalid_input "cmp3 string raw size overflow"

-- The raw size bounds what RLE expands to.
raw_size_from-bound :
    (total : ℕ) (values : List (List ℕ)) (size : ℕ)
    → All IsText values
    → raw_size_from total values ≡ ok size
    → (length (encode_stored values) + total ≤ size + 10 * length values)
      × (size ≤ length (encode_stored values) + total)
unfolding raw_size_from encode_stored
raw_size_from-bound total [] size texts e =
    let same : total ≡ size = cc in (omega (arith, same), omega (arith, same))
raw_size_from-bound total (value ∷ values) size (text_in, texts) e =
    let (sum, added, e1) = >>=-eq-ok _ (ok_or (checked_add total (length value)) size_refused) e in
    let same = checked_add-sum total (length value) sum size_refused added in
    let (most, least) = raw_size_from-bound sum values size texts e1 in
    let ten = length-encode_u64_most (length value ∷ []) (text_in.1, tt) in
    let appended = length-append (encode_u64 (length value ∷ [])) (value ++ encode_stored values) in
    let appended' = length-append value (encode_stored values) in
    (
      omega (arith, most, same, ten, appended, appended'),
      omega (arith, least, same, appended, appended'),
    )

-- RLE expands to at most `max_decoded_bytes` when it is decoded.
abbrev pub Fitting : SchemaCodec → List (List ℕ) → Type 0
Fitting rle values = length (encode_stored values) ≤ max_decoded_bytes
Fitting codec values = Unit

pub leb_of_le : (a b : ℕ) → a ≤ b → leb a b ≡ true
leb_of_le a b h = ground arith

decode_rle_stored-encode_rle :
    (values : List (List ℕ)) (raw_size : ℕ)
    → All IsText values
    → length values ≤ max_decoded_values
    → raw_size_from 0 values ≡ ok raw_size
    → length (encode_stored values) ≤ max_decoded_bytes
    → decode_rle_stored raw_size (encode_rle (encode_stored values)) (length values) ≡ ok values
unfolding decode_rle_stored
decode_rle_stored-encode_rle values raw_size texts few sized fitting =
    let stored_size = length (encode_stored values) in
    let (most, least) = raw_size_from-bound 0 values raw_size texts sized in
    let sum = raw_size + length values * 10 in
    let room : ltb (length values * 10) (2 ^ 64) ≡ true = ground arith in
    let room' : ltb sum (2 ^ 64) ≡ true = ground arith in
    let within : leb stored_size (min sum max_decoded_bytes) ≡ true =
      leb_of_le stored_size (min sum max_decoded_bytes) (omega arith) in
    let expanded : decode_rle_bounded (encode_rle (encode_stored values))
          (min sum max_decoded_bytes)
        ≡ ok (encode_stored values) =
      decode_rle_bounded-encode_rle (encode_stored values) (min sum max_decoded_bytes) (omega arith)
      ∙ rw (within) refl in
    rw (room, room', expanded) (decode_stored-encode_stored values texts (omega arith))

pub decode_values-encode_values :
    (codec : SchemaCodec) (values : List (List ℕ)) (raw_size : ℕ) (bytes : List ℕ)
    → All IsText values
    → length values ≤ max_decoded_values
    → raw_size_from 0 values ≡ ok raw_size
    → Fitting codec values
    → length bytes < 2 ^ 64
    → encode_values codec values ≡ ok bytes
    → (decode_values codec raw_size bytes (length values) ≡ ok values)
      × ((is_rle codec || leb (length values) (length bytes)) ≡ true)
unfolding decode_values encode_values
decode_values-encode_values stored values raw_size bytes texts few sized fitting fits e =
    let same : encode_stored values ≡ bytes = cc in
    let short : length (encode_stored values) < 2 ^ 64 = omega (arith, fits, ap length same) in
    rw (sym same) (
      decode_stored-encode_stored values texts short,
      leb_of_le _ _ (length-encode_stored_least values),
    )
decode_values-encode_values prefix values raw_size bytes texts few sized fitting fits e =
    let same : encode_prefix values ≡ bytes = cc in
    let short : length (encode_prefix values) < 2 ^ 64 = omega (arith, fits, ap length same) in
    rw (sym same) (
      decode_prefix-encode_prefix values texts short,
      leb_of_le _ _ (length-encode_prefix_least [] values),
    )
decode_values-encode_values dictionary values raw_size bytes texts few sized fitting fits e =
    let (same, most) = decode_dictionary-encode_dictionary values bytes texts fits e in
    (same, leb_of_le _ _ most)
decode_values-encode_values rle values raw_size bytes texts few sized fitting fits e =
    let same : encode_rle (encode_stored values) ≡ bytes = cc in
    rw (sym same) (decode_rle_stored-encode_rle values raw_size texts few sized fitting, refl)
decode_values-encode_values auto values raw_size bytes texts few sized fitting fits e = cc
decode_values-encode_values bitmap values raw_size bytes texts few sized fitting fits e = cc
decode_values-encode_values bitpack values raw_size bytes texts few sized fitting fits e = cc
decode_values-encode_values delta_bitpack values raw_size bytes texts few sized fitting fits e = cc
decode_values-encode_values delta_varint_u64 values raw_size bytes texts few sized fitting fits e =
    cc
