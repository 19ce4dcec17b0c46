-- ===== src/Cmp3/Metadata.antt =====
-- crates/compact-core/src/format/v3.rs: the CMP3 file header and the metadata of a column chunk. The
-- name of a column is its UTF-8 bytes.
pub mod RoundTrip
mod Tests
use compact_core.Common.{
  ℕ, ◌+◌, ◌-◌, ◌^◌, List, [], ◌∷◌, ◌++◌, Bool, true, false, not, ◌&&◌, ◌||◌, ltb, leb, ◌==◌,
  if◌then◌else◌, length, get_or, take, drop, bytes_eq, to_le_bytes, from_le_bytes, Result, ok, err,
  ◌>>=◌, ◌>>◌, ensure, CompactError, invalid_input, unsupported,
}
use compact_core.Common.Text.{is_utf8}
use compact_core.Cursor.{section_at, number_at}
use compact_core.Schema.{
  SchemaValueType, SchemaCodec, bool, string, u64, auto, bitmap, bitpack, delta_bitpack, dictionary,
  delta_varint_u64, prefix, rle, stored,
}

-- lib.rs: `MAGIC_V3` is `*b"CMP3"`.
abbrev pub magic_v3 : List ℕ
magic_v3 = b'C' ∷ b'M' ∷ b'P' ∷ b'3' ∷ []

abbrev pub version_v3 : ℕ
version_v3 = 3

abbrev pub file_header_len : ℕ
file_header_len = 4 + 1 + 1 + 4

pub record FileHeader : Type 0 where
  pub flags : ℕ
  pub payload : List ℕ
  pub body_offset : ℕ

pub record ColumnChunkMetadata : Type 0 where
  pub name : List ℕ
  pub value_type : SchemaValueType
  pub nullable : Bool
  pub codec : SchemaCodec
  pub value_count : ℕ
  pub null_count : ℕ
  pub raw_size : ℕ
  pub compressed_size : ℕ
  pub codec_metadata : List ℕ
  pub statistics_metadata : List ℕ

unfoldable pub encode_empty_header : List ℕ
encode_empty_header = magic_v3 ++ (version_v3 ∷ 0 ∷ to_le_bytes 4 0)

unfoldable pub decode_header : List ℕ → Result FileHeader
decode_header bytes = do
  ensure (not (ltb (length bytes) file_header_len)) (invalid_input "cmp3 header is truncated")
  ensure (bytes_eq (take 4 bytes) magic_v3) (invalid_input "invalid cmp3 magic")
  ensure (get_or bytes 4 0 == version_v3) (unsupported "cmp3 version")
  let flags = get_or bytes 5 0
  ensure (flags == 0) (unsupported "cmp3 flags")
  let payload_len = from_le_bytes (take 4 (drop 6 bytes))
  let body_offset = file_header_len + payload_len
  ensure (ltb body_offset (2 ^ 64)) (invalid_input "cmp3 header length overflow")
  ensure (leb body_offset (length bytes)) (invalid_input "cmp3 header payload is truncated")
  ok (record {
    flags = flags;
    payload = take payload_len (drop file_header_len bytes);
    body_offset = body_offset;
  })

unfoldable pub value_type_to_id : SchemaValueType → ℕ
value_type_to_id bool = 1
value_type_to_id string = 2
value_type_to_id u64 = 3

unfoldable pub id_to_value_type : ℕ → Result SchemaValueType
id_to_value_type id =
    if id == 1
    then ok bool
    else if id == 2
    then ok string
    else if id == 3
    then ok u64
    else err (unsupported "cmp3 value type id")

unfoldable pub codec_to_id : SchemaCodec → ℕ
codec_to_id auto = 1
codec_to_id bitmap = 2
codec_to_id bitpack = 3
codec_to_id delta_bitpack = 9
codec_to_id dictionary = 4
codec_to_id delta_varint_u64 = 5
codec_to_id prefix = 6
codec_to_id rle = 7
codec_to_id stored = 8

unfoldable pub id_to_codec : ℕ → Result SchemaCodec
id_to_codec id =
    if id == 1
    then ok auto
    else if id == 2
    then ok bitmap
    else if id == 3
    then ok bitpack
    else if id == 9
    then ok delta_bitpack
    else if id == 4
    then ok dictionary
    else if id == 5
    then ok delta_varint_u64
    else if id == 6
    then ok prefix
    else if id == 7
    then ok rle
    else if id == 8
    then ok stored
    else err (unsupported "cmp3 codec id")

-- The `match` of `validate_column_metadata`.
abbrev pub supported : SchemaValueType → SchemaCodec → Bool
supported u64 bitpack = true
supported u64 delta_bitpack = true
supported u64 delta_varint_u64 = true
supported u64 stored = true
supported string dictionary = true
supported string prefix = true
supported string rle = true
supported string stored = true
supported bool bitmap = true
supported bool stored = true
supported t c = false

unfoldable pub validate_column_metadata : ColumnChunkMetadata → Result (Unit {0})
validate_column_metadata m = do
  ensure (not (length m.name == 0)) (invalid_input "cmp3 column name must not be empty")
  ensure (leb m.null_count m.value_count) (invalid_input "cmp3 null count exceeds value count")
  ensure (m.nullable || m.null_count == 0) (invalid_input "cmp3 required column has null values")
  ensure (supported m.value_type m.codec)
      (invalid_input "cmp3 selected codec does not match value type")

-- The bytes that `encode_column_metadata` appends.
unfoldable pub metadata_bytes : ColumnChunkMetadata → List ℕ → List ℕ
unfolding value_type_to_id codec_to_id
metadata_bytes m back =
    to_le_bytes 2 (length m.name)
    ++ (m.name
        ++ ((value_type_to_id m.value_type ∷ [])
            ++ (((if m.nullable then 1 else 0) ∷ [])
                ++ ((codec_to_id m.codec ∷ [])
                    ++ (to_le_bytes 8 m.value_count
                        ++ (to_le_bytes 8 m.null_count
                            ++ (to_le_bytes 8 m.raw_size
                                ++ (to_le_bytes 8 m.compressed_size
                                    ++ (to_le_bytes 4 (length m.codec_metadata)
                                        ++ (m.codec_metadata
                                            ++ (to_le_bytes 4 (length m.statistics_metadata)
                                                ++ (m.statistics_metadata ++ back))))))))))))

unfoldable pub encode_column_metadata : ColumnChunkMetadata → Result (List ℕ)
unfolding validate_column_metadata metadata_bytes
encode_column_metadata m = do
  validate_column_metadata m
  ensure (ltb (length m.name) (2 ^ 16)) (invalid_input "cmp3 column name is too long")
  ensure (ltb (length m.codec_metadata) (2 ^ 32)) (invalid_input "cmp3 codec metadata is too large")
  ensure (ltb (length m.statistics_metadata) (2 ^ 32))
      (invalid_input "cmp3 statistics metadata is too large")
  ok (metadata_bytes m [])

unfoldable pub read_exact : List ℕ → ℕ → ℕ → CompactError → Result (List ℕ × ℕ)
unfolding section_at
read_exact bytes cursor len failure =
    section_at (invalid_input "cmp3 metadata length overflow") bytes cursor len failure

unfoldable pub read_u8 : List ℕ → ℕ → CompactError → Result (ℕ × ℕ)
unfolding read_exact
read_u8 bytes cursor failure = do
  (slice, next) ← read_exact bytes cursor 1 failure
  ok (get_or slice 0 0, next)

-- `read_u16`, `read_u32` and `read_u64`, by their count of bytes.
unfoldable pub read_le : ℕ → List ℕ → ℕ → CompactError → Result (ℕ × ℕ)
unfolding number_at
read_le width bytes cursor failure =
    number_at (invalid_input "cmp3 metadata length overflow") width bytes cursor failure

abbrev pub nullable_of : ℕ → Result Bool
nullable_of flag =
    if flag == 0
    then ok false
    else if flag == 1
    then ok true
    else err (invalid_input "invalid cmp3 nullable flag")

-- The reads of `decode_column_metadata` in four groups: the name, the type with the flag and the codec,
-- the counts, and the two byte strings with their lengths.
unfoldable pub read_name : List ℕ → ℕ → Result (List ℕ × ℕ)
unfolding read_exact read_le
read_name bytes cursor = do
  (name_len, c1) ← read_le 2 bytes cursor (invalid_input "cmp3 column name length is truncated")
  (name, c2) ← read_exact bytes c1 name_len (invalid_input "cmp3 column name is truncated")
  ensure (is_utf8 name) (invalid_input "cmp3 column name must be utf-8")
  ok (name, c2)

unfoldable pub read_kind : List ℕ → ℕ → Result (SchemaValueType × Bool × SchemaCodec × ℕ)
unfolding read_u8 id_to_value_type id_to_codec
read_kind bytes cursor = do
  (type_id, c1) ← read_u8 bytes cursor (invalid_input "cmp3 column value type is truncated")
  value_type ← id_to_value_type type_id
  (flag, c2) ← read_u8 bytes c1 (invalid_input "cmp3 nullable flag is truncated")
  nullable ← nullable_of flag
  (codec_id, c3) ← read_u8 bytes c2 (invalid_input "cmp3 codec id is truncated")
  codec ← id_to_codec codec_id
  ok (value_type, nullable, codec, c3)

unfoldable pub read_counts : List ℕ → ℕ → Result (ℕ × ℕ × ℕ × ℕ × ℕ)
unfolding read_le
read_counts bytes cursor = do
  (value_count, c1) ← read_le 8 bytes cursor (invalid_input "cmp3 value count is truncated")
  (null_count, c2) ← read_le 8 bytes c1 (invalid_input "cmp3 null count is truncated")
  (raw_size, c3) ← read_le 8 bytes c2 (invalid_input "cmp3 raw size is truncated")
  (compressed_size, c4) ← read_le 8 bytes c3 (invalid_input "cmp3 compressed size is truncated")
  ok (value_count, null_count, raw_size, compressed_size, c4)

unfoldable pub read_sections : List ℕ → ℕ → Result (List ℕ × List ℕ × ℕ)
unfolding read_le read_exact
read_sections bytes cursor = do
  (codec_metadata_len, c1) ←
      read_le 4 bytes cursor (invalid_input "cmp3 codec metadata length is truncated")
  (codec_metadata, c2) ←
      read_exact bytes c1 codec_metadata_len (invalid_input "cmp3 codec metadata is truncated")
  (statistics_metadata_len, c3) ←
      read_le 4 bytes c2 (invalid_input "cmp3 statistics metadata length is truncated")
  (statistics_metadata, c4) ←
      read_exact bytes c3 statistics_metadata_len
        (invalid_input "cmp3 statistics metadata is truncated")
  ok (codec_metadata, statistics_metadata, c4)

unfoldable pub decode_column_metadata : List ℕ → Result (ColumnChunkMetadata × ℕ)
unfolding read_name read_kind read_counts read_sections validate_column_metadata
decode_column_metadata bytes = do
  (name, c1) ← read_name bytes 0
  (value_type, nullable, codec, c2) ← read_kind bytes c1
  (value_count, null_count, raw_size, compressed_size, c3) ← read_counts bytes c2
  (codec_metadata, statistics_metadata, cursor) ← read_sections bytes c3
  let m : ColumnChunkMetadata = record {
    name = name;
    value_type = value_type;
    nullable = nullable;
    codec = codec;
    value_count = value_count;
    null_count = null_count;
    raw_size = raw_size;
    compressed_size = compressed_size;
    codec_metadata = codec_metadata;
    statistics_metadata = statistics_metadata;
  }
  validate_column_metadata m
  ok (m, cursor)
