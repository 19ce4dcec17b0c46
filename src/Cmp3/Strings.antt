-- ===== src/Cmp3/Strings.antt =====
-- crates/compact-core/src/codecs/v3/string.rs: a string column in one of four codecs, behind the
-- validity bitmap of a nullable one. This file has the encoder, Read the decoder. A text is its bytes.
pub mod Read
pub mod Stored
pub mod Prefixes
pub mod Entries
pub mod Values
pub mod RoundTrip
mod Tests
use compact_core.Common.{
  ℕ, zero, suc, ◌+◌, ◌*◌, ◌^◌, List, [], ◌∷◌, ◌++◌, Bool, true, false, ◌||◌, Option, none, some,
  ltb, ◌==◌, if◌then◌else◌, length, drop, bytes_eq, to_le_bytes, map, Result, ok, err, ◌>>=◌, ◌>>◌,
  ensure, CompactError, invalid_input, unsupported,
}
use mathlib.Core.Option
use compact_core.Common.Text.{as_bytes}
use compact_core.Primitives.Delta.{checked_add, ok_or}
use compact_core.Primitives.Rle.{encode_rle}
use compact_core.Primitives.Varint.{encode_u64}
use compact_core.Schema.{
  ColumnSchema, SchemaValueType, SchemaCodec, string, dictionary, prefix, rle, stored,
}
use compact_core.Statistics
use compact_core.Cmp3.Cells.{
  Cell, text, Rows, EncodedColumnChunk, Refusals, collect, count_absent, validity_bytes,
}

abbrev pub max_dictionary_entries : ℕ
max_dictionary_entries = 4096

abbrev pub bad_codec : CompactError
bad_codec = unsupported "cmp3 string encoder requires implemented string codec"

-- `Some(Value::String(value))`
abbrev pub as_text : Cell → Option (List ℕ)
as_text (text value) = some value
as_text cell = none

abbrev pub string_refusals : Refusals
string_refusals = record {
  is_null = invalid_input "required string column must not be null";
  is_missing = invalid_input "jsonl row missing required string column";
  is_other = invalid_input "jsonl string column must be string or null";
}

unfoldable pub encode_stored : List (List ℕ) → List ℕ
encode_stored [] = []
encode_stored (value ∷ values) = encode_u64 (length value ∷ []) ++ (value ++ encode_stored values)

-- `previous.iter().zip(bytes).take_while(..).count()`
unfoldable pub common_prefix : List ℕ → List ℕ → ℕ
common_prefix [] bytes = 0
common_prefix (left ∷ previous) [] = 0
common_prefix (left ∷ previous) (right ∷ bytes) =
    let rest = common_prefix previous bytes in if left == right then suc rest else 0

-- The loop of `encode_prefix`, behind the text `previous`.
unfoldable pub encode_prefix_from : List ℕ → List (List ℕ) → List ℕ
unfolding common_prefix
encode_prefix_from previous [] = []
encode_prefix_from previous (value ∷ values) =
    let shared = common_prefix previous value in
    let suffix = drop shared value in
    encode_u64 (shared ∷ length suffix ∷ []) ++ (suffix ++ encode_prefix_from value values)

abbrev pub encode_prefix : List (List ℕ) → List ℕ
encode_prefix values = encode_prefix_from [] values

-- `by_value.get(value)`: the place of a text in the dictionary so far.
unfoldable pub id_in : List ℕ → List (List ℕ) → Option ℕ
id_in value [] = none
id_in value (entry ∷ entries) =
    let rest = id_in value entries in if bytes_eq entry value then some 0 else Option.map suc rest

-- One round of the loop of `encode_dictionary`: the dictionary behind it and the id.
abbrev pub add_entry : List ℕ → List (List ℕ) → Option ℕ → Result (List (List ℕ) × ℕ)
add_entry value entries (some id) = ok (entries, id)
add_entry value entries none = do
  ensure (ltb (length entries) max_dictionary_entries)
      (unsupported "cmp3 dictionary cardinality limit exceeded")
  ok (entries ++ value ∷ [], length entries)

unfoldable pub build_dictionary : List (List ℕ) → List (List ℕ) → Result (List (List ℕ) × List ℕ)
unfolding id_in
build_dictionary entries [] = ok (entries, [])
build_dictionary entries (value ∷ values) = do
  (entries', id) ← add_entry value entries (id_in value entries)
  (final, ids) ← build_dictionary entries' values
  ok (final, id ∷ ids)

unfoldable pub encode_dictionary : List (List ℕ) → Result (List ℕ)
unfolding build_dictionary encode_stored
encode_dictionary values = do
  (entries, ids) ← build_dictionary [] values
  ok (encode_u64 (length entries ∷ []) ++ (encode_stored entries ++ encode_u64 ids))

unfoldable pub encode_values : SchemaCodec → List (List ℕ) → Result (List ℕ)
unfolding encode_stored encode_prefix_from encode_dictionary
encode_values prefix values = ok (encode_prefix values)
encode_values dictionary values = encode_dictionary values
encode_values rle values = ok (encode_rle (encode_stored values))
encode_values stored values = ok (encode_stored values)
encode_values codec values = err bad_codec

-- `values.iter().collect::<HashSet<_>>().len()`
abbrev has_text : List ℕ → List (List ℕ) → Bool
has_text value [] = false
has_text value (other ∷ others) = bytes_eq other value || has_text value others

unfoldable pub distinct_count : List (List ℕ) → ℕ
distinct_count [] = 0
distinct_count (value ∷ values) =
    let rest = distinct_count values in if has_text value values then rest else suc rest

-- The `try_fold` over the lengths, from `total` on.
unfoldable pub raw_size_from : ℕ → List (List ℕ) → Result ℕ
raw_size_from total [] = ok total
raw_size_from total (value ∷ values) = do
  sum ← ok_or (checked_add total (length value)) (invalid_input "cmp3 string raw size overflow")
  raw_size_from sum values

abbrev pub is_string_codec : SchemaValueType → SchemaCodec → Bool
is_string_codec string prefix = true
is_string_codec string dictionary = true
is_string_codec string rle = true
is_string_codec string stored = true
is_string_codec t c = false

unfoldable pub validate_column : ColumnSchema → Result (Unit {0})
validate_column column = ensure (is_string_codec column.value_type column.codec) bad_codec

-- The chunk that `encode_string_column` returns.
unfoldable pub string_chunk :
    ColumnSchema → List Bool → List (List ℕ) → List ℕ → ℕ → EncodedColumnChunk
unfolding distinct_count
string_chunk column validity values encoded_values raw_size =
    let payload = validity_bytes column.nullable validity ++ encoded_values in
    record {
      metadata = record {
        name = as_bytes column.name;
        value_type = string;
        nullable = column.nullable;
        codec = column.codec;
        value_count = length validity;
        null_count = count_absent validity;
        raw_size = raw_size;
        compressed_size = length payload;
        codec_metadata = to_le_bytes 8 (length values);
        statistics_metadata = Statistics.encode_string (distinct_count values);
      };
      payload = payload;
    }

unfoldable pub encode_string_column :
    (r : Rows) → ColumnSchema → List r.Row → Result EncodedColumnChunk
unfolding validate_column collect encode_values raw_size_from string_chunk
encode_string_column r column rows = do
  validate_column column
  (validity, values) ←
      collect as_text string_refusals column.nullable
        (map (λ (row : r.Row). r.get row column.name) rows)
  encoded_values ← encode_values column.codec values
  raw_size ← raw_size_from 0 values
  ok (string_chunk column validity values encoded_values raw_size)
