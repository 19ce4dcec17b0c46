-- ===== src/Cmp3/Numeric.antt =====
-- crates/compact-core/src/codecs/v3/numeric.rs: a u64 column in one of four codecs, behind the validity
-- bitmap of a nullable one.
pub mod Width
pub mod Values
pub mod RoundTrip
mod Tests
use compact_core.Common.{
  ℕ, zero, suc, ◌+◌, ◌-◌, ◌*◌, ◌/◌, ◌^◌, List, [], ◌∷◌, ◌++◌, Bool, true, false, not, ◌||◌, Option,
  none, some, ltb, leb, ◌==◌, if◌then◌else◌, length, get_or, take, drop, to_le_bytes, from_le_bytes,
  map, Result, ok, err, ◌>>=◌, ◌>>◌, ensure, CompactError, invalid_input, unsupported,
}
use compact_core.Common.Text.{as_bytes}
use compact_core.Pipeline
use compact_core.Primitives.Bitpack
use compact_core.Primitives.Bitpack.{max_decoded_values}
use compact_core.Primitives.Delta.{checked_add, checked_sub, ok_or}
use compact_core.Schema.{
  ColumnSchema, SchemaValueType, SchemaCodec, u64, bitpack, delta_bitpack, delta_varint_u64, stored,
}
use compact_core.Statistics
use compact_core.Cmp3.Metadata.{ColumnChunkMetadata}
use compact_core.Cmp3.Cells.{
  Cell, unsigned, Rows, EncodedColumnChunk, Refusals, collect, restore, count_present, count_absent,
  validity_bytes, read_validity,
}

abbrev pub bad_codec : CompactError
bad_codec = unsupported "cmp3 numeric encoder requires implemented u64 codec"

abbrev pub incompatible : CompactError
incompatible = invalid_input "cmp3 numeric metadata has incompatible codec"

-- `Some(Value::Number(value)) if value.as_u64().is_some()`
abbrev pub as_u64 : Cell → Option ℕ
as_u64 (unsigned value) = some value
as_u64 cell = none

abbrev pub numeric_refusals : Refusals
numeric_refusals = record {
  is_null = invalid_input "required u64 column must not be null";
  is_missing = invalid_input "jsonl row missing required u64 column";
  is_other = invalid_input "jsonl u64 column must be an unsigned integer or null";
}

-- `u64::BITS - value.leading_zeros()`: the halvings, of at most 64, until nothing is left.
unfoldable pub halvings : ℕ → ℕ → ℕ
halvings zero value = 0
halvings (suc bits) value =
    let rest = halvings bits (value / 2) in if value == 0 then 0 else suc rest

abbrev pub required_width : ℕ → ℕ
required_width value = halvings 64 value

-- `values.iter().copied().min()` and `max()`.
abbrev pub lesser : ℕ → Option ℕ → ℕ
lesser value none = value
lesser value (some least) = if ltb least value then least else value

abbrev pub greater : ℕ → Option ℕ → ℕ
greater value none = value
greater value (some greatest) = if ltb value greatest then greatest else value

unfoldable pub min_of : List ℕ → Option ℕ
min_of [] = none
min_of (value ∷ values) = some (lesser value (min_of values))

unfoldable pub max_of : List ℕ → Option ℕ
max_of [] = none
max_of (value ∷ values) = some (greater value (max_of values))

abbrev pub or_zero : Option ℕ → ℕ
or_zero none = 0
or_zero (some value) = value

abbrev pub first_or : List ℕ → ℕ → ℕ
first_or [] d = d
first_or (value ∷ values) d = value

-- The loop of `encode_delta_bitpack`.
unfoldable pub deltas_from : ℕ → List ℕ → Result (List ℕ)
deltas_from previous [] = ok []
deltas_from previous (value ∷ values) = do
  delta ←
      ok_or (checked_sub value previous)
        (invalid_input "delta bitpack requires monotonic u64 values")
  deltas ← deltas_from value values
  ok (delta ∷ deltas)

-- The codec metadata and the payload of the values.
unfoldable pub encode_delta_bitpack : List ℕ → Result (List ℕ × List ℕ)
unfolding deltas_from max_of halvings
encode_delta_bitpack values = do
  let base = first_or values 0
  deltas ← deltas_from base values
  let width = required_width (or_zero (max_of deltas))
  bytes ← Bitpack.encode_u64 deltas width
  ok (width ∷ (to_le_bytes 8 base ++ to_le_bytes 8 (length values)), bytes)

unfoldable pub stored_bytes : List ℕ → List ℕ
stored_bytes [] = []
stored_bytes (value ∷ values) = to_le_bytes 8 value ++ stored_bytes values

unfoldable pub encode_values : SchemaCodec → List ℕ → Result (List ℕ × List ℕ)
unfolding encode_delta_bitpack stored_bytes max_of halvings
encode_values bitpack values = do
  let width = required_width (or_zero (max_of values))
  bytes ← Bitpack.encode_u64 values width
  ok (width ∷ to_le_bytes 8 (length values), bytes)
encode_values delta_bitpack values = encode_delta_bitpack values
encode_values delta_varint_u64 values = do
  bytes ← Pipeline.encode_u64 values
  ok (to_le_bytes 8 (length values), bytes)
encode_values stored values = ok (to_le_bytes 8 (length values), stored_bytes values)
encode_values codec values = err bad_codec

abbrev pub is_numeric : SchemaValueType → SchemaCodec → Bool
is_numeric u64 bitpack = true
is_numeric u64 delta_bitpack = true
is_numeric u64 delta_varint_u64 = true
is_numeric u64 stored = true
is_numeric t c = false

unfoldable pub validate_column : ColumnSchema → Result (Unit {0})
validate_column column = ensure (is_numeric column.value_type column.codec) bad_codec

-- The chunk that `encode_u64_column` returns.
unfoldable pub numeric_chunk :
    ColumnSchema → List Bool → List ℕ → List ℕ × List ℕ → EncodedColumnChunk
unfolding min_of max_of
numeric_chunk column validity values (codec_metadata, encoded_values) =
    let payload = validity_bytes column.nullable validity ++ encoded_values in
    record {
      metadata = record {
        name = as_bytes column.name;
        value_type = u64;
        nullable = column.nullable;
        codec = column.codec;
        value_count = length validity;
        null_count = count_absent validity;
        raw_size = length values * 8;
        compressed_size = length payload;
        codec_metadata = codec_metadata;
        statistics_metadata = Statistics.encode_u64 (min_of values) (max_of values);
      };
      payload = payload;
    }

unfoldable pub encode_u64_column :
    (r : Rows) → ColumnSchema → List r.Row → Result EncodedColumnChunk
unfolding validate_column collect encode_values numeric_chunk
encode_u64_column r column rows = do
  validate_column column
  (validity, values) ←
      collect as_u64 numeric_refusals column.nullable
        (map (λ (row : r.Row). r.get row column.name) rows)
  encoded ← encode_values column.codec values
  ensure (ltb (length values * 8) (2 ^ 64)) (invalid_input "cmp3 numeric raw size overflow")
  ok (numeric_chunk column validity values encoded)

abbrev pub expected_metadata_len : SchemaCodec → Result ℕ
expected_metadata_len bitpack = ok (1 + 8)
expected_metadata_len delta_bitpack = ok (1 + 8 + 8)
expected_metadata_len delta_varint_u64 = ok 8
expected_metadata_len stored = ok 8
expected_metadata_len codec = err incompatible

-- `matches!(codec, Bitpack | DeltaBitpack)`
abbrev pub has_width : SchemaCodec → Bool
has_width bitpack = true
has_width delta_bitpack = true
has_width codec = false

abbrev pub is_u64 : SchemaValueType → Bool
is_u64 u64 = true
is_u64 t = false

unfoldable pub validate_metadata : ColumnChunkMetadata → List ℕ → Result (Unit {0})
validate_metadata m payload = do
  ensure (is_u64 m.value_type) (invalid_input "cmp3 numeric metadata has incompatible type")
  ensure (leb m.null_count m.value_count) (invalid_input "cmp3 numeric null count is invalid")
  ensure (m.nullable || m.null_count == 0) (invalid_input "cmp3 numeric null count is invalid")
  expected ← expected_metadata_len m.codec
  ensure (length m.codec_metadata == expected)
      (invalid_input "cmp3 numeric codec metadata length mismatch")
  ensure (not (has_width m.codec) || leb (get_or m.codec_metadata 0 0) 64)
      (invalid_input "bit width must be <= 64")
  ensure (from_le_bytes (drop (expected - 8) m.codec_metadata) == m.value_count - m.null_count)
      (invalid_input "cmp3 numeric codec metadata count mismatch")
  ensure (m.compressed_size == length payload)
      (invalid_input "cmp3 numeric payload size does not match metadata")

-- The loop of `decode_delta_bitpack`.
unfoldable pub sums_from : ℕ → List ℕ → Result (List ℕ)
sums_from previous [] = ok []
sums_from previous (delta ∷ deltas) = do
  value ← ok_or (checked_add previous delta) (invalid_input "delta bitpack decode overflow")
  values ← sums_from value deltas
  ok (value ∷ values)

unfoldable pub decode_delta_bitpack : List ℕ → List ℕ → ℕ → Result (List ℕ)
unfolding sums_from
decode_delta_bitpack codec_metadata payload count = do
  deltas ← Bitpack.decode_u64 payload (get_or codec_metadata 0 0) count
  sums_from (from_le_bytes (take 8 (drop 1 codec_metadata))) deltas

-- `payload.chunks_exact(8)`, of `count` chunks.
unfoldable pub chunks : ℕ → List ℕ → List ℕ
chunks zero payload = []
chunks (suc count) payload = from_le_bytes (take 8 payload) ∷ chunks count (drop 8 payload)

unfoldable pub decode_stored : List ℕ → ℕ → Result (List ℕ)
unfolding chunks
decode_stored payload count = do
  ensure (ltb (count * 8) (2 ^ 64)) (invalid_input "cmp3 stored length overflow")
  ensure (length payload == count * 8) (invalid_input "cmp3 stored payload length mismatch")
  ok (chunks count payload)

unfoldable pub decode_values : SchemaCodec → List ℕ → List ℕ → ℕ → Result (List ℕ)
unfolding decode_delta_bitpack decode_stored
decode_values bitpack codec_metadata payload count =
    Bitpack.decode_u64 payload (get_or codec_metadata 0 0) count
decode_values delta_bitpack codec_metadata payload count =
    decode_delta_bitpack codec_metadata payload count
decode_values delta_varint_u64 codec_metadata payload count = do
  values ← Pipeline.decode_u64 payload
  ensure (length values == count) (invalid_input "cmp3 numeric decoded count mismatch")
  ok values
decode_values stored codec_metadata payload count = decode_stored payload count
decode_values codec codec_metadata payload count = err incompatible

unfoldable pub decode_u64_column : ColumnChunkMetadata → List ℕ → Result (List (Option ℕ))
unfolding validate_metadata read_validity decode_values restore
decode_u64_column m payload = do
  validate_metadata m payload
  ensure (leb m.value_count max_decoded_values)
      (invalid_input "cmp3 numeric value count exceeds configured limit")
  let non_null_count = m.value_count - m.null_count
  (validity, values_payload) ←
      read_validity (invalid_input "cmp3 numeric validity bitmap is truncated") m.nullable
        m.value_count non_null_count payload
  values ← decode_values m.codec m.codec_metadata values_payload non_null_count
  (decoded, left) ← restore (invalid_input "cmp3 numeric payload is missing values") validity values
  ok decoded
