-- ===== src/Cmp3/Strings/RoundTrip.antt =====
-- `decode_string_column` on what `encode_string_column` writes.
use compact_core.Common.{
  ℕ, ◌-◌, ◌^◌, ◌≤◌, ◌<◌, ◌≡◌, refl, sym, ap, ◌∙◌, arith, List, [], ◌∷◌, ◌++◌, Bool, true, ◌||◌, leb,
  ◌==◌, ==_iff, if◌then◌else◌, length, length-append, length-map, map, All, to_le_bytes,
  from_le_bytes, length-to_le_bytes, from_le_bytes-to_le_bytes, drop, drop-append_exact, ok,
  >>=-eq-ok, ensure-eq-ok, CompactError, invalid_input,
}
use compact_core.Framing.Sealed.{==_self}
use compact_core.Primitives.Bitmap.{byte_count}
use compact_core.Primitives.Bitpack.{max_decoded_values}
use compact_core.Schema.{ColumnSchema, SchemaValueType, SchemaCodec, bool, u64, string}
use compact_core.Cmp3.Cells.{
  Cell, text, Rows, EncodedColumnChunk, collect, count_present, count_absent, validity_bytes,
}
use compact_core.Cmp3.Cells.Collected.{
  Collected, present_of, onto, collect-Collected, count_absent-present,
  read_validity-validity_bytes, length-validity_bytes, required_count, cells_of,
}
use compact_core.Cmp3.Strings.{
  as_text, string_refusals, encode_values, raw_size_from, is_string_codec, validate_column,
  string_chunk, encode_string_column,
}
use compact_core.Cmp3.Strings.Read.{
  decode_values, validate_metadata, is_rle, truncated, decode_string_column,
}
use compact_core.Cmp3.Strings.Stored.{IsText}
use compact_core.Cmp3.Strings.Values.{Fitting, leb_of_le, decode_values-encode_values}

abbrev pub missing_values : CompactError
missing_values = invalid_input "cmp3 string payload is missing values"

module _ (column : ColumnSchema) (cells : List Cell) (validity : List Bool) (values : List (List ℕ))
    (bytes : List ℕ) (raw_size : ℕ)
    (known : Collected as_text string_refusals missing_values column.nullable cells validity values)
    (few : length cells ≤ max_decoded_values)
    (decoded : decode_values column.codec raw_size bytes (length values) ≡ ok values)
    (enough : (is_rle column.codec || leb (length values) (length bytes)) ≡ true)
    (typed : is_string_codec string column.codec ≡ true) where
  non_null : length validity - count_absent validity ≡ length values
  non_null = omega (arith, count_absent-present validity, known.present)

  validate-string_chunk :
      validate_metadata
        (string_chunk column validity values bytes raw_size).metadata
        (string_chunk column validity values bytes raw_size).payload
      ≡ ok tt
  unfolding validate_metadata string_chunk
  validate-string_chunk =
      let rows = known.rows in
      let within : leb (count_absent validity) (length validity) ≡ true =
        ground (arith, count_absent-present validity) in
      let required = required_count column.nullable validity known.all_present in
      let eight : (length (to_le_bytes 8 (length values)) == 8) ≡ true =
        (==_iff _ _).1 (length-to_le_bytes 8 (length values)) in
      let read : from_le_bytes (to_le_bytes 8 (length values)) ≡ length values =
        from_le_bytes-to_le_bytes 8 (length values) (omega (arith, non_null)) in
      let same : (from_le_bytes (to_le_bytes 8 (length values))
            == length validity - count_absent validity)
          ≡ true =
        (==_iff _ _).1 (read ∙ sym non_null) in
      rw
        (
          typed,
          eight,
          within,
          required,
          same,
          ==_self (length (validity_bytes column.nullable validity ++ bytes)),
        )
        refl

  decode-string_chunk :
      decode_string_column
        (string_chunk column validity values bytes raw_size).metadata
        (string_chunk column validity values bytes raw_size).payload
      ≡ ok (map as_text cells)
  unfolding decode_string_column string_chunk
  decode-string_chunk =
      let rows = known.rows in
      let within : leb (length validity) max_decoded_values ≡ true = ground arith in
      let count : length validity - count_absent validity ≡ count_present validity =
        omega (arith, count_absent-present validity) in
      let front = validity_bytes column.nullable validity in
      let width = length-validity_bytes column.nullable validity in
      let room : leb (if column.nullable then byte_count (length validity) else 0)
            (length (front ++ bytes))
          ≡ true =
        leb_of_le _ _ (omega (arith, width, length-append front bytes)) in
      let behind : drop (if column.nullable then byte_count (length validity) else 0)
            (front ++ bytes)
          ≡ bytes =
        drop-append_exact (if column.nullable then byte_count (length validity) else 0) front bytes
          width in
      let many : (is_rle column.codec || leb (count_present validity) (length bytes)) ≡ true =
        rw (known.present) enough in
      let values_back : decode_values column.codec raw_size bytes (count_present validity)
          ≡ ok values =
        rw (known.present) decoded in
      rw
        (
          validate-string_chunk,
          within,
          count,
          read_validity-validity_bytes truncated column.nullable validity bytes known.all_present,
          room,
          behind,
          many,
          values_back,
          known.restored,
        )
        refl

-- Where a cell has a text, it is a `String`.
abbrev pub InText : Cell → Type 0
InText (text value) = IsText value
InText cell = Unit

present_of-IsText : (cells : List Cell) → All InText cells → All IsText (present_of as_text cells)
present_of-IsText [] h = tt
present_of-IsText (cell ∷ cells) (first, others) =
    onto-IsText cell (present_of as_text cells) first (present_of-IsText cells others)
  where
    onto-IsText :
        (c : Cell) (values : List (List ℕ))
        → InText c
        → All IsText values
        → All IsText (onto (as_text c) values)
    onto-IsText Cell.missing values h k = k
    onto-IsText Cell.null values h k = k
    onto-IsText Cell.other values h k = k
    onto-IsText (Cell.boolean b) values h k = k
    onto-IsText (Cell.unsigned n) values h k = k
    onto-IsText (text t) values h k = (h, k)

typed_codec :
    (t : SchemaValueType) (c : SchemaCodec)
    → is_string_codec t c ≡ true
    → is_string_codec string c ≡ true
typed_codec bool c e = absurd cc
typed_codec u64 c e = absurd cc
typed_codec string c e = e

chunk_payload :
    (column : ColumnSchema) (validity : List Bool) (values : List (List ℕ)) (bytes : List ℕ)
    (raw_size : ℕ)
    → length (validity_bytes column.nullable validity ++ bytes)
      ≡ length (string_chunk column validity values bytes raw_size).payload
unfolding string_chunk
chunk_payload column validity values bytes raw_size = refl

-- The chunk of a string column of at most `max_decoded_values` rows decodes to the values and nulls of
-- the rows in their order. In the RLE codec, the texts with their lengths take `max_decoded_bytes` at
-- most.
pub decode_string_column-encode_string_column :
    (r : Rows) (column : ColumnSchema) (rows : List r.Row) (chunk : EncodedColumnChunk)
    → All InText (cells_of r column rows)
    → length rows ≤ max_decoded_values
    → Fitting column.codec (present_of as_text (cells_of r column rows))
    → length chunk.payload < 2 ^ 64
    → encode_string_column r column rows ≡ ok chunk
    → decode_string_column chunk.metadata chunk.payload ≡ ok (map as_text (cells_of r column rows))
unfolding encode_string_column validate_column
decode_string_column-encode_string_column r column rows chunk range few fitting fits e =
    let cells = cells_of r column rows in
    let size : length cells ≡ length rows =
      length-map (λ (row : r.Row). r.get row column.name) rows in
    let (typed, e1) = ensure-eq-ok (is_string_codec column.value_type column.codec) _ e in
    let (collected, taken, e2) =
      >>=-eq-ok _ (collect as_text string_refusals column.nullable cells) e1 in
    let (bytes, written, e3) = >>=-eq-ok _ (encode_values column.codec collected.1) e2 in
    let (raw_size, sized, e4) = >>=-eq-ok _ (raw_size_from 0 collected.1) e3 in
    let known =
      collect-Collected as_text string_refusals missing_values column.nullable cells collected
        taken in
    let same : string_chunk column collected.0 collected.1 bytes raw_size ≡ chunk = cc in
    let payload : length (validity_bytes column.nullable collected.0 ++ bytes)
        ≡ length chunk.payload =
      chunk_payload column collected.0 collected.1 bytes raw_size
      ∙ ap (λ (c : EncodedColumnChunk). length c.payload) same in
    let texts : All IsText collected.1 = rw (known.picked) (present_of-IsText cells range) in
    let enough : length collected.1 ≤ max_decoded_values =
      omega (arith, known.present, known.rows, count_absent-present collected.0, size, few) in
    let short : length bytes < 2 ^ 64 =
      omega
        (arith, fits, payload, length-append (validity_bytes column.nullable collected.0) bytes) in
    let (decoded, many) =
      decode_values-encode_values column.codec collected.1 raw_size bytes texts enough sized
        (rw (known.picked) fitting) short written in
    rw (sym same) (
      decode-string_chunk column cells collected.0 collected.1 bytes raw_size known
        (omega (arith, size, few)) decoded many (typed_codec column.value_type column.codec typed))
