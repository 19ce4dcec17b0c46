-- ===== src/Cmp3/Boolean.antt =====
-- crates/compact-core/src/codecs/v3/boolean.rs: a boolean column as a bitmap of its values, behind the
-- validity bitmap of a nullable one.
pub mod RoundTrip
mod Tests
use compact_core.Common.{
  ℕ, suc, ◌+◌, ◌-◌, ◌^◌, List, [], ◌∷◌, ◌++◌, Bool, true, false, not, ◌||◌, Option, none, some, ltb,
  leb, ◌==◌, if◌then◌else◌, length, to_le_bytes, from_le_bytes, map, Result, ok, err, ◌>>=◌, ◌>>◌,
  ensure, invalid_input, unsupported,
}
use compact_core.Common.Text.{as_bytes}
use compact_core.Primitives.Bitmap
use compact_core.Primitives.Bitmap.{byte_count}
use compact_core.Primitives.Bitpack.{max_decoded_values}
use compact_core.Primitives.Delta.{checked_add, ok_or}
use compact_core.Schema.{ColumnSchema, SchemaValueType, SchemaCodec, bool, bitmap}
use compact_core.Statistics
use compact_core.Cmp3.Metadata.{ColumnChunkMetadata}
use compact_core.Cmp3.Cells.{
  Cell, boolean, Rows, EncodedColumnChunk, Refusals, collect, restore, count_present, count_absent,
  validity_bytes, read_validity,
}

abbrev pub boolean_codec_metadata_len : ℕ
boolean_codec_metadata_len = 8

-- `Some(Value::Bool(value))`
abbrev pub as_bool : Cell → Option Bool
as_bool (boolean value) = some value
as_bool cell = none

abbrev pub boolean_refusals : Refusals
boolean_refusals = record {
  is_null = invalid_input "required boolean column must not be null";
  is_missing = invalid_input "jsonl row missing required boolean column";
  is_other = invalid_input "jsonl boolean column must be bool or null";
}

-- `value_type == Bool && codec == Bitmap`
abbrev pub is_bool_bitmap : SchemaValueType → SchemaCodec → Bool
is_bool_bitmap bool bitmap = true
is_bool_bitmap t c = false

unfoldable pub validate_boolean_column : ColumnSchema → Result (Unit {0})
validate_boolean_column column =
    ensure (is_bool_bitmap column.value_type column.codec)
      (unsupported "cmp3 boolean encoder requires bool bitmap column")

-- What follows the loop over the rows. Counts are below 2 ^ 64, as `usize` has 64 bits.
unfoldable pub boolean_chunk : ColumnSchema → List Bool → List Bool → EncodedColumnChunk
boolean_chunk column validity values =
    let null_count = count_absent validity in
    let payload = validity_bytes column.nullable validity ++ Bitmap.encode values in
    let value_count = length validity in
    record {
      metadata = record {
        name = as_bytes column.name;
        value_type = bool;
        nullable = column.nullable;
        codec = bitmap;
        value_count = value_count;
        null_count = null_count;
        raw_size = value_count - null_count;
        compressed_size = length payload;
        codec_metadata = to_le_bytes 8 (value_count - null_count);
        statistics_metadata = Statistics.encode_bool (count_present values);
      };
      payload = payload;
    }

unfoldable pub encode_boolean_column :
    (r : Rows) → ColumnSchema → List r.Row → Result EncodedColumnChunk
unfolding validate_boolean_column boolean_chunk collect
encode_boolean_column r column rows = do
  validate_boolean_column column
  (validity, values) ←
      collect as_bool boolean_refusals column.nullable
        (map (λ (row : r.Row). r.get row column.name) rows)
  ok (boolean_chunk column validity values)

unfoldable pub validate_boolean_metadata : ColumnChunkMetadata → List ℕ → Result (Unit {0})
validate_boolean_metadata m payload = do
  ensure (is_bool_bitmap m.value_type m.codec)
      (invalid_input "cmp3 boolean metadata has incompatible type or codec")
  ensure (leb m.null_count m.value_count) (invalid_input "cmp3 null count exceeds value count")
  ensure (m.nullable || m.null_count == 0) (invalid_input "cmp3 required column has null values")
  ensure (length m.codec_metadata == boolean_codec_metadata_len)
      (invalid_input "cmp3 boolean codec metadata must contain non-null count")
  let expected_non_null_count = m.value_count - m.null_count
  ensure (from_le_bytes m.codec_metadata == expected_non_null_count)
      (invalid_input "cmp3 boolean codec metadata count mismatch")
  ensure (m.compressed_size == length payload)
      (invalid_input "cmp3 boolean payload size does not match metadata")
  expected_payload_len ←
      ok_or
        (checked_add (if m.nullable then byte_count m.value_count else 0)
          (byte_count expected_non_null_count))
        (invalid_input "cmp3 boolean payload length overflow")
  ensure (length payload == expected_payload_len)
      (invalid_input "cmp3 boolean payload length does not match counts")

unfoldable pub decode_boolean_column : ColumnChunkMetadata → List ℕ → Result (List (Option Bool))
unfolding validate_boolean_metadata read_validity restore
decode_boolean_column m payload = do
  validate_boolean_metadata m payload
  ensure (leb m.value_count max_decoded_values)
      (invalid_input "cmp3 boolean value count exceeds configured limit")
  let non_null_count = m.value_count - m.null_count
  (validity, value_payload) ←
      read_validity (invalid_input "cmp3 boolean validity bitmap is truncated") m.nullable
        m.value_count non_null_count payload
  values ← Bitmap.decode value_payload non_null_count
  (decoded, left) ←
      restore (invalid_input "cmp3 boolean value bitmap is missing values") validity values
  ensure (length left == 0) (invalid_input "cmp3 boolean value bitmap has extra values")
  ok decoded
