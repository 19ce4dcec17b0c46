-- ===== src/Cmp3/Strings/Tests.antt =====
-- String columns in the manner of the source's tests.
use compact_core.Common.{
  ◌≡◌, refl, arith, List, [], ◌∷◌, true, none, some, to_le_bytes, bytes_eq, ok, err, invalid_input,
}
use compact_core.Common.Text.{is_utf8, as_bytes}
use compact_core.Primitives.Bitmap
use compact_core.Primitives.Varint.{encode_u64}
use compact_core.Schema.{ColumnSchema, SchemaCodec, string, prefix, dictionary}
use compact_core.Cmp3.Cells.{Cell, null, boolean, text, Rows, EncodedColumnChunk, count_absent}
use compact_core.Cmp3.Strings.{encode_dictionary, encode_string_column}
use compact_core.Cmp3.Strings.Read.{decode_string_column, decode_prefix, decode_dictionary}
use compact_core.Cmp3.Strings.RoundTrip.{decode_string_column-encode_string_column}

abbrev one_key : Rows
one_key = record { Row = Cell; get = λ row name. row }

abbrev level : SchemaCodec → ColumnSchema
level codec = record { name = "level"; value_type = string; codec = codec; nullable = true }

abbrev log_rows : List Cell
log_rows = text (b'h' ∷ b'i' ∷ []) ∷ null ∷ text (b'h' ∷ b'o' ∷ []) ∷ text (b'h' ∷ b'i' ∷ []) ∷ []

dictionary_ids :
    encode_dictionary ((b'h' ∷ b'i' ∷ []) ∷ (b'h' ∷ b'o' ∷ []) ∷ (b'h' ∷ b'i' ∷ []) ∷ [])
    ≡ ok (2 ∷ 2 ∷ b'h' ∷ b'i' ∷ 2 ∷ b'h' ∷ b'o' ∷ 0 ∷ 1 ∷ 0 ∷ [])
unfolding encode_dictionary encode_u64 bytes_eq
dictionary_ids = refl

refusals :
    (decode_prefix (1 ∷ 1 ∷ b'a' ∷ []) 1
      ≡ err (invalid_input "cmp3 prefix exceeds previous string"))
    × (decode_dictionary (1 ∷ 1 ∷ b'a' ∷ 1 ∷ []) 1
        ≡ err (invalid_input "cmp3 dictionary id out of range"))
    × (encode_string_column one_key (level prefix) (boolean true ∷ [])
        ≡ err (invalid_input "jsonl string column must be string or null"))
unfolding decode_prefix decode_dictionary encode_string_column compact_core.Cursor.read
    compact_core.Primitives.Varint.read_u64 compact_core.Cursor.section_at is_utf8
    compact_core.Primitives.Varint.decode_u64
refusals = (refl, refl, refl)

-- The chunk of `log_rows`: the validity bitmap 0b1101, the entries and the ids.
abbrev log_chunk : EncodedColumnChunk
log_chunk = record {
  metadata = record {
    name = b'l' ∷ b'e' ∷ b'v' ∷ b'e' ∷ b'l' ∷ [];
    value_type = string;
    nullable = true;
    codec = dictionary;
    value_count = 4;
    null_count = 1;
    raw_size = 6;
    compressed_size = 11;
    codec_metadata = 3 ∷ 0 ∷ 0 ∷ 0 ∷ 0 ∷ 0 ∷ 0 ∷ 0 ∷ [];
    statistics_metadata = 3 ∷ 2 ∷ 0 ∷ 0 ∷ 0 ∷ 0 ∷ 0 ∷ 0 ∷ 0 ∷ [];
  };
  payload = 13 ∷ 2 ∷ 2 ∷ b'h' ∷ b'i' ∷ 2 ∷ b'h' ∷ b'o' ∷ 0 ∷ 1 ∷ 0 ∷ [];
}

log_chunk_encoded : encode_string_column one_key (level dictionary) log_rows ≡ ok log_chunk
unfolding encode_string_column bytes_eq as_bytes count_absent Bitmap.encode to_le_bytes
    compact_core.Statistics.encode_string encode_u64
log_chunk_encoded = refl

decode_string_column-encode_string_column_example :
    decode_string_column log_chunk.metadata log_chunk.payload
    ≡ ok (some (b'h' ∷ b'i' ∷ []) ∷ none ∷ some (b'h' ∷ b'o' ∷ []) ∷ some (b'h' ∷ b'i' ∷ []) ∷ [])
unfolding is_utf8
decode_string_column-encode_string_column_example =
    decode_string_column-encode_string_column one_key (level dictionary) log_rows log_chunk
      ((refl, omega arith), (tt, ((refl, omega arith), ((refl, omega arith), tt)))) (omega arith) tt
      (omega arith) log_chunk_encoded
