-- ===== src/Cmp3/Boolean/RoundTrip.antt =====
-- `decode_boolean_column` on what `encode_boolean_column` writes.
use compact_core.Common.{
  ℕ, ◌+◌, ◌-◌, ◌^◌, ◌≤◌, ◌≡◌, refl, ap, ap₂, ◌∙◌, arith, List, ◌++◌, Bool, true, ltb, leb, ◌==◌,
  ==_iff, if◌then◌else◌, length, length-append, length-map, map, All, to_le_bytes, from_le_bytes,
  length-to_le_bytes, from_le_bytes-to_le_bytes, ok, CompactError, invalid_input,
}
use compact_core.Framing.Sealed.{==_self}
use compact_core.Primitives.Bitmap
use compact_core.Primitives.Bitmap.{byte_count}
use compact_core.Primitives.Bitmap.RoundTrip.{decode-encode, length-encode}
use compact_core.Primitives.Bitpack.{max_decoded_values}
use compact_core.Schema.{ColumnSchema}
use compact_core.Cmp3.Cells.{
  Cell, Rows, EncodedColumnChunk, count_present, count_absent, validity_bytes,
}
use compact_core.Cmp3.Cells.Collected.{
  Collected, Admissible, collect-Admissible, collect-Collected, count_absent-present,
  read_validity-validity_bytes, required_count, length-validity_bytes, front_most, cells_of,
}
use compact_core.Cmp3.Boolean.{
  as_bool, boolean_refusals, validate_boolean_column, boolean_chunk, encode_boolean_column,
  validate_boolean_metadata, decode_boolean_column,
}

abbrev pub missing_values : CompactError
missing_values = invalid_input "cmp3 boolean value bitmap is missing values"

module _ (column : ColumnSchema) (cells : List Cell) (validity values : List Bool)
    (known : Collected as_bool boolean_refusals missing_values column.nullable cells validity
      values)
    (few : length cells ≤ max_decoded_values) where
  validate-boolean_chunk :
      validate_boolean_metadata
        (boolean_chunk column validity values).metadata
        (boolean_chunk column validity values).payload
      ≡ ok tt
  unfolding validate_boolean_metadata boolean_chunk
  validate-boolean_chunk =
      let n = length validity in
      let absent = count_absent validity in
      let total = count_absent-present validity in
      let within : leb absent n ≡ true = ground arith in
      let required = required_count column.nullable validity (known.all_present) in
      let eight : (length (to_le_bytes 8 (n - absent)) == 8) ≡ true =
        (==_iff _ _).1 (length-to_le_bytes 8 (n - absent)) in
      let rows = known.rows in
      let read : from_le_bytes (to_le_bytes 8 (n - absent)) ≡ n - absent =
        from_le_bytes-to_le_bytes 8 (n - absent) (omega arith) in
      let same : (from_le_bytes (to_le_bytes 8 (n - absent)) == n - absent) ≡ true =
        (==_iff _ _).1 read in
      let front = if column.nullable then byte_count n else 0 in
      let small : front ≤ byte_count n = front_most column.nullable n in
      let room : ltb (front + byte_count (n - absent)) (2 ^ 64) ≡ true = ground arith in
      let size : length (validity_bytes column.nullable validity ++ Bitmap.encode values)
          ≡ front + byte_count (n - absent) =
        length-append (validity_bytes column.nullable validity) (Bitmap.encode values)
        ∙ ap₂ (λ (a b : ℕ). a + b) (length-validity_bytes column.nullable validity)
            (length-encode values ∙ ap byte_count (omega (arith, known.present))) in
      rw
        (
          within,
          required,
          eight,
          same,
          ==_self (length (validity_bytes column.nullable validity ++ Bitmap.encode values)),
          room,
        )
        (rw ((==_iff _ _).1 size) refl)

  decode-boolean_chunk :
      decode_boolean_column
        (boolean_chunk column validity values).metadata
        (boolean_chunk column validity values).payload
      ≡ ok (map as_bool cells)
  unfolding decode_boolean_column boolean_chunk
  decode-boolean_chunk =
      let rows = known.rows in
      let within : leb (length validity) max_decoded_values ≡ true = ground arith in
      let count : length validity - count_absent validity ≡ count_present validity =
        omega (arith, count_absent-present validity) in
      let bits : Bitmap.decode (Bitmap.encode values) (count_present validity) ≡ ok values =
        rw (known.present) (decode-encode values) in
      rw
        (
          validate-boolean_chunk,
          within,
          count,
          read_validity-validity_bytes (invalid_input "cmp3 boolean validity bitmap is truncated")
              column.nullable validity (Bitmap.encode values) known.all_present,
          bits,
          known.restored,
        )
        refl

-- At most `max_decoded_values` rows with booleans, and with nulls or without the key where the column
-- is nullable, are encoded, and the chunk decodes to the values of the rows in their order.
pub decode_boolean_column-encode_boolean_column :
    (r : Rows) (column : ColumnSchema) (rows : List r.Row)
    → validate_boolean_column column ≡ ok tt
    → All (Admissible as_bool column.nullable) (cells_of r column rows)
    → length rows ≤ max_decoded_values
    → (chunk : EncodedColumnChunk) × (encode_boolean_column r column rows ≡ ok chunk)
      × (decode_boolean_column chunk.metadata chunk.payload
          ≡ ok (map as_bool (cells_of r column rows)))
unfolding encode_boolean_column
decode_boolean_column-encode_boolean_column r column rows valid admissible few =
    let cells = cells_of r column rows in
    let (collected, e) =
      collect-Admissible as_bool boolean_refusals column.nullable cells admissible in
    let known =
      collect-Collected as_bool boolean_refusals missing_values column.nullable cells collected e in
    (
      boolean_chunk column collected.0 collected.1,
      rw (valid, e) refl,
      decode-boolean_chunk column cells collected.0 collected.1 known
          (omega (arith, few, length-map (λ (row : r.Row). r.get row column.name) rows)),
    )
