-- ===== src/Cmp3/Strings/Read.antt =====
-- crates/compact-core/src/codecs/v3/string.rs: the decoder of a string column.
use compact_core.Common.{
  ℕ, zero, suc, ◌-◌, ◌*◌, ◌^◌, List, [], ◌∷◌, ◌++◌, Bool, true, false, ◌&&◌, ◌||◌, Option, ltb, leb,
  ◌==◌, if◌then◌else◌, length, take, drop, get_elem?, min, from_le_bytes, Result, ok, err, ◌>>=◌,
  ◌>>◌, ensure, CompactError, invalid_input,
}
use compact_core.Common.Text.{is_utf8}
use compact_core.Cursor.{read, section_at}
use compact_core.Primitives.Bitmap.{byte_count}
use compact_core.Primitives.Bitpack.{max_decoded_values}
use compact_core.Primitives.Delta.{checked_add, ok_or}
use compact_core.Primitives.Rle.{decode_rle_bounded, max_decoded_bytes}
use compact_core.Primitives.Varint.{decode_u64}
use compact_core.Schema.{SchemaCodec, dictionary, prefix, rle, stored}
use compact_core.Cmp3.Metadata.{ColumnChunkMetadata}
use compact_core.Cmp3.Cells.{restore, read_validity}
use compact_core.Cmp3.Strings.{max_dictionary_entries, is_string_codec}

abbrev pub not_utf8 : CompactError
not_utf8 = invalid_input "cmp3 string must be utf-8"

abbrev pub read_exact : List ℕ → ℕ → ℕ → Result (List ℕ × ℕ)
read_exact bytes cursor len =
    section_at (invalid_input "cmp3 string length overflow") bytes cursor len
      (invalid_input "cmp3 string payload is truncated")

-- One text with its length, in `decode_stored` and in `decode_dictionary`.
unfoldable pub read_text : List ℕ → ℕ → Result (List ℕ × ℕ)
read_text bytes cursor = do
  (len, c1) ← read bytes cursor
  (value, c2) ← read_exact bytes c1 len
  ensure (is_utf8 value) not_utf8
  ok (value, c2)

unfoldable pub read_texts : List ℕ → ℕ → ℕ → Result (List (List ℕ) × ℕ)
unfolding read_text
read_texts bytes zero cursor = ok ([], cursor)
read_texts bytes (suc count) cursor = do
  (value, c1) ← read_text bytes cursor
  (values, c2) ← read_texts bytes count c1
  ok (value ∷ values, c2)

unfoldable pub decode_stored : List ℕ → ℕ → Result (List (List ℕ))
unfolding read_texts
decode_stored bytes count = do
  (values, cursor) ← read_texts bytes count 0
  ensure (cursor == length bytes) (invalid_input "cmp3 string payload has trailing bytes")
  ok values

-- The loop of `decode_prefix`, behind the text `previous`.
unfoldable pub read_suffixes : List ℕ → ℕ → List ℕ → ℕ → Result (List (List ℕ) × ℕ)
read_suffixes bytes zero previous cursor = ok ([], cursor)
read_suffixes bytes (suc count) previous cursor = do
  (shared, c1) ← read bytes cursor
  (suffix_len, c2) ← read bytes c1
  ensure (leb shared (length previous)) (invalid_input "cmp3 prefix exceeds previous string")
  (suffix, c3) ← read_exact bytes c2 suffix_len
  let current = take shared previous ++ suffix
  ensure (is_utf8 current) not_utf8
  (values, c4) ← read_suffixes bytes count current c3
  ok (current ∷ values, c4)

unfoldable pub decode_prefix : List ℕ → ℕ → Result (List (List ℕ))
unfolding read_suffixes
decode_prefix bytes count = do
  (values, cursor) ← read_suffixes bytes count [] 0
  ensure (cursor == length bytes) (invalid_input "cmp3 prefix payload has trailing bytes")
  ok values

-- `ids.into_iter().map(..).collect()`
unfoldable pub look_up : List (List ℕ) → List ℕ → Result (List (List ℕ))
look_up entries [] = ok []
look_up entries (id ∷ ids) = do
  value ← ok_or (get_elem? entries id) (invalid_input "cmp3 dictionary id out of range")
  values ← look_up entries ids
  ok (value ∷ values)

unfoldable pub decode_dictionary : List ℕ → ℕ → Result (List (List ℕ))
unfolding read_texts look_up
decode_dictionary bytes count = do
  (dictionary_count, c1) ← read bytes 0
  ensure (leb dictionary_count max_dictionary_entries)
      (invalid_input "cmp3 dictionary cardinality limit exceeded")
  (entries, c2) ← read_texts bytes dictionary_count c1
  ids ← decode_u64 (drop c2 bytes)
  ensure (length ids == count) (invalid_input "cmp3 dictionary id count mismatch")
  look_up entries ids

abbrev pub size_overflow : CompactError
size_overflow = invalid_input "cmp3 string size overflow"

-- The arm of RLE, with the bound on what it expands to.
unfoldable pub decode_rle_stored : ℕ → List ℕ → ℕ → Result (List (List ℕ))
unfolding decode_stored
decode_rle_stored raw_size bytes count = do
  ensure (ltb (count * 10) (2 ^ 64)) size_overflow
  sum ← ok_or (checked_add raw_size (count * 10)) size_overflow
  expanded ← decode_rle_bounded bytes (min sum max_decoded_bytes)
  decode_stored expanded count

unfoldable pub decode_values : SchemaCodec → ℕ → List ℕ → ℕ → Result (List (List ℕ))
unfolding decode_prefix decode_dictionary decode_rle_stored decode_stored
decode_values prefix raw_size bytes count = decode_prefix bytes count
decode_values dictionary raw_size bytes count = decode_dictionary bytes count
decode_values rle raw_size bytes count = decode_rle_stored raw_size bytes count
decode_values stored raw_size bytes count = decode_stored bytes count
decode_values codec raw_size bytes count =
    err (invalid_input "cmp3 string metadata has incompatible codec")

unfoldable pub validate_metadata : ColumnChunkMetadata → List ℕ → Result (Unit {0})
validate_metadata m payload = do
  ensure (is_string_codec m.value_type m.codec)
      (invalid_input "cmp3 string metadata has incompatible type or codec")
  ensure
      (length m.codec_metadata == 8
        && (leb m.null_count m.value_count && (m.nullable || m.null_count == 0)))
      (invalid_input "cmp3 string metadata is invalid")
  ensure (from_le_bytes m.codec_metadata == m.value_count - m.null_count)
      (invalid_input "cmp3 string codec metadata count mismatch")
  ensure (m.compressed_size == length payload)
      (invalid_input "cmp3 string payload size does not match metadata")

abbrev pub is_rle : SchemaCodec → Bool
is_rle rle = true
is_rle codec = false

abbrev pub truncated : CompactError
truncated = invalid_input "cmp3 string validity bitmap is truncated"

unfoldable pub decode_string_column : ColumnChunkMetadata → List ℕ → Result (List (Option (List ℕ)))
unfolding validate_metadata read_validity decode_values restore
decode_string_column m payload = do
  validate_metadata m payload
  ensure (leb m.value_count max_decoded_values)
      (invalid_input "cmp3 string value count exceeds configured limit")
  let non_null_count = m.value_count - m.null_count
  let validity_len = if m.nullable then byte_count m.value_count else 0
  ensure (leb validity_len (length payload)) truncated
  ensure (is_rle m.codec || leb non_null_count (length (drop validity_len payload)))
      (invalid_input "cmp3 string payload cannot contain declared values")
  (validity, values_payload) ←
      read_validity truncated m.nullable m.value_count non_null_count payload
  values ← decode_values m.codec m.raw_size values_payload non_null_count
  (decoded, left) ← restore (invalid_input "cmp3 string payload is missing values") validity values
  ok decoded
