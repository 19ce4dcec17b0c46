-- ===== src/Cmp3/Metadata/Tests.antt =====
-- Records and headers in the manner of the source's tests.
use compact_core.Common.{
  ◌≡◌, refl, arith, [], ◌∷◌, ◌++◌, true, length, to_le_bytes, from_le_bytes, bytes_eq, ok, err,
  invalid_input, unsupported,
}
use compact_core.Common.Text.{as_bytes, is_utf8}
use compact_core.Schema.{bool, bitmap}
use compact_core.Cmp3.Metadata.{
  ColumnChunkMetadata, encode_empty_header, decode_header, encode_column_metadata,
  decode_column_metadata, metadata_bytes,
}
use compact_core.Cmp3.Metadata.RoundTrip.{InRange, decode_column_metadata-encode_column_metadata}

as_bytes_two_byte : as_bytes "aé" ≡ 97 ∷ 0xc3 ∷ 0xa9 ∷ []
unfolding as_bytes
as_bytes_two_byte = refl

headers :
    (decode_header encode_empty_header ≡ ok (record { flags = 0; payload = []; body_offset = 10 }))
    × (decode_header (b'C' ∷ b'M' ∷ b'P' ∷ b'3' ∷ 4 ∷ 0 ∷ 0 ∷ 0 ∷ 0 ∷ 0 ∷ [])
        ≡ err (unsupported "cmp3 version"))
    × (decode_header (b'C' ∷ b'M' ∷ b'P' ∷ b'3' ∷ 3 ∷ 0 ∷ 1 ∷ 0 ∷ 0 ∷ 0 ∷ [])
        ≡ err (invalid_input "cmp3 header payload is truncated"))
unfolding decode_header encode_empty_header to_le_bytes bytes_eq from_le_bytes
headers = (refl, refl, refl)

abbrev active : ColumnChunkMetadata
active = record {
  name = 97 ∷ 0xc3 ∷ 0xa9 ∷ [];
  value_type = bool;
  nullable = true;
  codec = bitmap;
  value_count = 3;
  null_count = 1;
  raw_size = 2;
  compressed_size = 2;
  codec_metadata = to_le_bytes 8 2;
  statistics_metadata = 2 ∷ to_le_bytes 8 1;
}

active_range : InRange active
unfolding is_utf8
active_range = record {
  name_text = refl;
  value_count_u64 = omega arith;
  null_count_u64 = omega arith;
  raw_size_u64 = omega arith;
  compressed_size_u64 = omega arith;
}

active_encodes : encode_column_metadata active ≡ ok (metadata_bytes active [])
unfolding encode_column_metadata to_le_bytes
active_encodes = refl

decode_column_metadata-encode_column_metadata_example :
    decode_column_metadata (metadata_bytes active [] ++ 7 ∷ [])
    ≡ ok (active, length (metadata_bytes active []))
unfolding metadata_bytes to_le_bytes
decode_column_metadata-encode_column_metadata_example =
    decode_column_metadata-encode_column_metadata active (metadata_bytes active []) (7 ∷ [])
      active_range active_encodes (omega arith)
