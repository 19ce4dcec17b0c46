-- ===== src/Cmp3/Metadata/RoundTrip.antt =====
-- `decode_column_metadata` on what `encode_column_metadata` writes.
use compact_core.Common.{
  String, ℕ, ◌^◌, ◌<◌, ◌≡◌, refl, sym, ap, ◌∙◌, arith, List, [], ◌∷◌, ◌++◌, Bool, true, false, ltb,
  if◌then◌else◌, length, length-append, append_assoc, to_le_bytes, IsU64, ok, CompactError,
  invalid_input, >>=-eq-ok, ensure-eq-ok,
}
use compact_core.Common.Text.{is_utf8}
use compact_core.Cursor.At.{At, At-start, section_at-At, number_at-At}
use compact_core.Schema.{
  SchemaValueType, SchemaCodec, bool, string, u64, auto, bitmap, bitpack, delta_bitpack, dictionary,
  delta_varint_u64, prefix, rle, stored,
}
use compact_core.Cmp3.Metadata.{
  ColumnChunkMetadata, value_type_to_id, id_to_value_type, codec_to_id, id_to_codec, nullable_of,
  validate_column_metadata, metadata_bytes, encode_column_metadata, read_exact, read_u8, read_le,
  read_name, read_kind, read_counts, read_sections, decode_column_metadata,
}

pub id_to_value_type-value_type_to_id :
    (t : SchemaValueType) → id_to_value_type (value_type_to_id t) ≡ ok t
unfolding id_to_value_type value_type_to_id
id_to_value_type-value_type_to_id bool = refl
id_to_value_type-value_type_to_id string = refl
id_to_value_type-value_type_to_id u64 = refl

pub id_to_codec-codec_to_id : (c : SchemaCodec) → id_to_codec (codec_to_id c) ≡ ok c
unfolding id_to_codec codec_to_id
id_to_codec-codec_to_id auto = refl
id_to_codec-codec_to_id bitmap = refl
id_to_codec-codec_to_id bitpack = refl
id_to_codec-codec_to_id delta_bitpack = refl
id_to_codec-codec_to_id dictionary = refl
id_to_codec-codec_to_id delta_varint_u64 = refl
id_to_codec-codec_to_id prefix = refl
id_to_codec-codec_to_id rle = refl
id_to_codec-codec_to_id stored = refl

module _ (bytes : List ℕ) (fits : length bytes < 2 ^ 64) where
  read_exact-At :
      (cursor : ℕ) (section back : List ℕ) (failure : CompactError)
      → At bytes cursor (section ++ back)
      → (next : ℕ) × (read_exact bytes cursor (length section) failure ≡ ok (section, next))
        × At bytes next back
  unfolding read_exact
  read_exact-At cursor section back failure at =
      section_at-At bytes cursor (length section) section back
        (invalid_input "cmp3 metadata length overflow") failure refl fits at

  read_u8-At :
      (cursor b : ℕ) (back : List ℕ) (failure : CompactError)
      → At bytes cursor ((b ∷ []) ++ back)
      → (next : ℕ) × (read_u8 bytes cursor failure ≡ ok (b, next)) × At bytes next back
  unfolding read_u8
  read_u8-At cursor b back failure at =
      let (next, read, at') = read_exact-At cursor (b ∷ []) back failure at in
      (next, rw (read) refl, at')

  read_le-At :
      (width cursor v : ℕ) (back : List ℕ) (failure : CompactError)
      → v < 256 ^ width
      → At bytes cursor (to_le_bytes width v ++ back)
      → (next : ℕ) × (read_le width bytes cursor failure ≡ ok (v, next)) × At bytes next back
  unfolding read_le
  read_le-At width cursor v back failure small at =
      number_at-At bytes width cursor v back (invalid_input "cmp3 metadata length overflow") failure
        fits small at

-- The ranges of the fields of a Rust `ColumnChunkMetadata`.
pub record InRange (m : ColumnChunkMetadata) : Type 0 where
  pub name_text : is_utf8 m.name ≡ true
  pub value_count_u64 : IsU64 m.value_count
  pub null_count_u64 : IsU64 m.null_count
  pub raw_size_u64 : IsU64 m.raw_size
  pub compressed_size_u64 : IsU64 m.compressed_size

nullable_of-flag : (nullable : Bool) → nullable_of (if nullable then 1 else 0) ≡ ok nullable
nullable_of-flag true = refl
nullable_of-flag false = refl

-- The lengths that `encode_column_metadata` lets through.
abbrev Bounded : ColumnChunkMetadata → Type 0
Bounded m =
    (length m.name < 256 ^ 2)
    × (length m.codec_metadata < 256 ^ 4)
    × (length m.statistics_metadata < 256 ^ 4)

abbrev truncated : String → CompactError
truncated message = invalid_input message

module _ (bytes : List ℕ) (fits : length bytes < 2 ^ 64) where
  read_name-At :
      (cursor : ℕ) (name back : List ℕ)
      → length name < 256 ^ 2
      → is_utf8 name ≡ true
      → At bytes cursor (to_le_bytes 2 (length name) ++ (name ++ back))
      → (next : ℕ) × (read_name bytes cursor ≡ ok (name, next)) × At bytes next back
  unfolding read_name
  read_name-At cursor name back small text at =
      let (c1, r1, a1) =
        read_le-At bytes fits 2 cursor (length name) _
          (truncated "cmp3 column name length is truncated") small at in
      let (c2, r2, a2) =
        read_exact-At bytes fits c1 name back (truncated "cmp3 column name is truncated") a1 in
      (c2, rw (r1, r2, text) refl, a2)

  read_kind-At :
      (cursor : ℕ) (t : SchemaValueType) (nullable : Bool) (c : SchemaCodec) (back : List ℕ)
      → At bytes cursor (
          (value_type_to_id t ∷ [])
          ++ (((if nullable then 1 else 0) ∷ []) ++ ((codec_to_id c ∷ []) ++ back)))
      → (next : ℕ) × (read_kind bytes cursor ≡ ok (t, nullable, c, next)) × At bytes next back
  unfolding read_kind
  read_kind-At cursor t nullable c back at =
      let (c1, r1, a1) =
        read_u8-At bytes fits cursor (value_type_to_id t) _
          (truncated "cmp3 column value type is truncated") at in
      let (c2, r2, a2) =
        read_u8-At bytes fits c1 (if nullable then 1 else 0) _
          (truncated "cmp3 nullable flag is truncated") a1 in
      let (c3, r3, a3) =
        read_u8-At bytes fits c2 (codec_to_id c) back (truncated "cmp3 codec id is truncated") a2 in
      (
        c3,
        rw
            (
              r1,
              id_to_value_type-value_type_to_id t,
              r2,
              nullable_of-flag nullable,
              r3,
              id_to_codec-codec_to_id c,
            )
            refl,
        a3,
      )

  read_counts-At :
      (cursor value_count null_count raw_size compressed_size : ℕ) (back : List ℕ)
      → IsU64 value_count
      → IsU64 null_count
      → IsU64 raw_size
      → IsU64 compressed_size
      → At bytes cursor (
          to_le_bytes 8 value_count
          ++ (to_le_bytes 8 null_count
              ++ (to_le_bytes 8 raw_size ++ (to_le_bytes 8 compressed_size ++ back))))
      → (next : ℕ) × (read_counts bytes cursor
          ≡ ok (value_count, null_count, raw_size, compressed_size, next))
        × At bytes next back
  unfolding read_counts
  read_counts-At cursor a b c d back ha hb hc hd at =
      let (c1, r1, a1) =
        read_le-At bytes fits 8 cursor a _ (truncated "cmp3 value count is truncated") ha at in
      let (c2, r2, a2) =
        read_le-At bytes fits 8 c1 b _ (truncated "cmp3 null count is truncated") hb a1 in
      let (c3, r3, a3) =
        read_le-At bytes fits 8 c2 c _ (truncated "cmp3 raw size is truncated") hc a2 in
      let (c4, r4, a4) =
        read_le-At bytes fits 8 c3 d back (truncated "cmp3 compressed size is truncated") hd a3 in
      (c4, rw (r1, r2, r3, r4) refl, a4)

  read_sections-At :
      (cursor : ℕ) (codec statistics back : List ℕ)
      → length codec < 256 ^ 4
      → length statistics < 256 ^ 4
      → At bytes cursor (
          to_le_bytes 4 (length codec)
          ++ (codec ++ (to_le_bytes 4 (length statistics) ++ (statistics ++ back))))
      → (next : ℕ) × (read_sections bytes cursor ≡ ok (codec, statistics, next))
        × At bytes next back
  unfolding read_sections
  read_sections-At cursor codec statistics back hc hs at =
      let (c1, r1, a1) =
        read_le-At bytes fits 4 cursor (length codec) _
          (truncated "cmp3 codec metadata length is truncated") hc at in
      let (c2, r2, a2) =
        read_exact-At bytes fits c1 codec _ (truncated "cmp3 codec metadata is truncated") a1 in
      let (c3, r3, a3) =
        read_le-At bytes fits 4 c2 (length statistics) _
          (truncated "cmp3 statistics metadata length is truncated") hs a2 in
      let (c4, r4, a4) =
        read_exact-At bytes fits c3 statistics back
          (truncated "cmp3 statistics metadata is truncated") a3 in
      (c4, rw (r1, r2, r3, r4) refl, a4)

decode-metadata_bytes :
    (m : ColumnChunkMetadata) (back : List ℕ)
    → InRange m
    → Bounded m
    → length (metadata_bytes m back) < 2 ^ 64
    → validate_column_metadata m ≡ ok tt
    → (next : ℕ) × (decode_column_metadata (metadata_bytes m back) ≡ ok (m, next))
      × At (metadata_bytes m back) next back
unfolding decode_column_metadata metadata_bytes
decode-metadata_bytes m back range (name_fits, codec_fits, statistics_fits) fits valid =
    let bytes = metadata_bytes m back in
    let (c1, r1, a1) =
      read_name-At bytes fits 0 m.name _ name_fits range.name_text (At-start bytes) in
    let (c2, r2, a2) = read_kind-At bytes fits c1 m.value_type m.nullable m.codec _ a1 in
    let (c3, r3, a3) =
      read_counts-At bytes fits c2 m.value_count m.null_count m.raw_size m.compressed_size _
        range.value_count_u64 range.null_count_u64 range.raw_size_u64 range.compressed_size_u64
        a2 in
    let (c4, r4, a4) =
      read_sections-At bytes fits c3 m.codec_metadata m.statistics_metadata back codec_fits
        statistics_fits a3 in
    (c4, rw (r1, r2, r3, r4, valid) refl, a4)

metadata_bytes-append :
    (m : ColumnChunkMetadata) (back : List ℕ) → metadata_bytes m back ≡ metadata_bytes m [] ++ back
unfolding metadata_bytes
metadata_bytes-append m back = simp append_assoc refl

encode-inversion :
    (m : ColumnChunkMetadata) (bytes : List ℕ)
    → encode_column_metadata m ≡ ok bytes
    → (validate_column_metadata m ≡ ok tt) × Bounded m × (bytes ≡ metadata_bytes m [])
unfolding encode_column_metadata
encode-inversion m bytes e =
    let (done, valid, e1) = >>=-eq-ok _ (validate_column_metadata m) e in
    let (name_fits, e2) = ensure-eq-ok (ltb (length m.name) (2 ^ 16)) _ e1 in
    let (codec_fits, e3) = ensure-eq-ok (ltb (length m.codec_metadata) (2 ^ 32)) _ e2 in
    let (statistics_fits, e4) = ensure-eq-ok (ltb (length m.statistics_metadata) (2 ^ 32)) _ e3 in
    (valid, (ground arith, ground arith, ground arith), cc)

-- A record that is encoded decodes, with any bytes behind it, to itself and to the length of its
-- encoding.
pub decode_column_metadata-encode_column_metadata :
    (m : ColumnChunkMetadata) (bytes back : List ℕ)
    → InRange m
    → encode_column_metadata m ≡ ok bytes
    → length (bytes ++ back) < 2 ^ 64
    → decode_column_metadata (bytes ++ back) ≡ ok (m, length bytes)
decode_column_metadata-encode_column_metadata m bytes back range e fits =
    let (valid, bounded, same) = encode-inversion m bytes e in
    let whole : metadata_bytes m back ≡ bytes ++ back =
      metadata_bytes-append m back ∙ ap (λ (t : List ℕ). t ++ back) (sym same) in
    let (next, decoded, (front, split, at)) =
      decode-metadata_bytes m back range bounded (rw (whole) fits) valid in
    let ended : next ≡ length bytes = omega (
      arith,
      at,
      ap length (sym whole ∙ split),
      length-append bytes back,
      length-append front back,
    ) in
    rw (whole, ended) at decoded
