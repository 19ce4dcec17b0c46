-- ===== src/Cmp3/Numeric/RoundTrip.antt =====
-- `decode_u64_column` on what `encode_u64_column` writes.
use compact_core.Common.{
  ℕ, ◌-◌, ◌*◌, ◌^◌, ◌≤◌, ◌≡◌, refl, sym, ◌∙◌, arith, List, [], ◌∷◌, ◌++◌, Bool, true, ltb, leb,
  ◌==◌, ==_iff, length, length-map, map, All, IsU64, from_le_bytes, drop, ok, CompactError,
  invalid_input,
}
use compact_core.Framing.Sealed.{==_self}
use compact_core.Primitives.Bitpack.{max_decoded_values}
use compact_core.Schema.{ColumnSchema}
use compact_core.Cmp3.Cells.{
  Cell, unsigned, Rows, EncodedColumnChunk, count_present, count_absent, validity_bytes,
}
use compact_core.Cmp3.Cells.Collected.{
  Collected, Admissible, present_of, onto, collect-Admissible, collect-Collected,
  count_absent-present, read_validity-validity_bytes, required_count, cells_of,
}
use compact_core.Cmp3.Numeric.{
  as_u64, numeric_refusals, validate_column, numeric_chunk, encode_u64_column, validate_metadata,
  decode_values, decode_u64_column,
}
use compact_core.Cmp3.Numeric.Values.{Suited, Encoded, encode_values-Encoded}

abbrev pub missing_values : CompactError
missing_values = invalid_input "cmp3 numeric payload is missing values"

-- A number that `as_u64` gives is a u64.
abbrev pub InU64 : Cell → Type 0
InU64 (unsigned value) = IsU64 value
InU64 cell = Unit

present_of-IsU64 : (cells : List Cell) → All InU64 cells → All IsU64 (present_of as_u64 cells)
present_of-IsU64 [] h = tt
present_of-IsU64 (cell ∷ cells) (first, others) =
    onto-IsU64 cell (present_of as_u64 cells) first (present_of-IsU64 cells others)
  where
    onto-IsU64 :
        (c : Cell) (values : List ℕ)
        → InU64 c
        → All IsU64 values
        → All IsU64 (onto (as_u64 c) values)
    onto-IsU64 Cell.missing values h k = k
    onto-IsU64 Cell.null values h k = k
    onto-IsU64 Cell.other values h k = k
    onto-IsU64 (Cell.boolean b) values h k = k
    onto-IsU64 (unsigned n) values h k = (h, k)
    onto-IsU64 (Cell.text t) values h k = k

module _ (column : ColumnSchema) (cells : List Cell) (validity : List Bool) (values : List ℕ)
    (encoded : List ℕ × List ℕ)
    (known : Collected as_u64 numeric_refusals missing_values column.nullable cells validity values)
    (written : Encoded column.codec values encoded.0 encoded.1)
    (few : length cells ≤ max_decoded_values) where
  non_null : length validity - count_absent validity ≡ length values
  non_null = omega (arith, count_absent-present validity, known.present)

  validate-numeric_chunk :
      validate_metadata
        (numeric_chunk column validity values encoded).metadata
        (numeric_chunk column validity values encoded).payload
      ≡ ok tt
  unfolding validate_metadata numeric_chunk
  validate-numeric_chunk =
      let within : leb (count_absent validity) (length validity) ≡ true =
        ground (arith, count_absent-present validity) in
      let required = required_count column.nullable validity known.all_present in
      let exact : (length encoded.0 == written.metadata_len) ≡ true =
        (==_iff _ _).1 written.measured in
      let same : (from_le_bytes (drop (written.metadata_len - 8) encoded.0)
            == length validity - count_absent validity)
          ≡ true =
        (==_iff _ _).1 (written.counted ∙ sym non_null) in
      rw
        (
          within,
          required,
          written.expected,
          exact,
          written.narrow,
          same,
          ==_self (length (validity_bytes column.nullable validity ++ encoded.1)),
        )
        refl

  decode-numeric_chunk :
      decode_u64_column
        (numeric_chunk column validity values encoded).metadata
        (numeric_chunk column validity values encoded).payload
      ≡ ok (map as_u64 cells)
  unfolding decode_u64_column numeric_chunk
  decode-numeric_chunk =
      let rows = known.rows in
      let within : leb (length validity) max_decoded_values ≡ true = ground arith in
      let count : length validity - count_absent validity ≡ count_present validity =
        omega (arith, count_absent-present validity) in
      let read : decode_values column.codec encoded.0 encoded.1 (count_present validity)
          ≡ ok values =
        rw (known.present) written.decoded in
      rw
        (
          validate-numeric_chunk,
          within,
          count,
          read_validity-validity_bytes (invalid_input "cmp3 numeric validity bitmap is truncated")
              column.nullable validity encoded.1 known.all_present,
          read,
          known.restored,
        )
        refl

-- At most `max_decoded_values` rows with u64 values, and with nulls or without the key where the column
-- is nullable, are encoded, in the delta codecs if the values do not decrease; and the chunk decodes to
-- the values of the rows in their order.
pub decode_u64_column-encode_u64_column :
    (r : Rows) (column : ColumnSchema) (rows : List r.Row)
    → validate_column column ≡ ok tt
    → All (Admissible as_u64 column.nullable) (cells_of r column rows)
    → All InU64 (cells_of r column rows)
    → Suited column.codec (present_of as_u64 (cells_of r column rows))
    → length rows ≤ max_decoded_values
    → (chunk : EncodedColumnChunk) × (encode_u64_column r column rows ≡ ok chunk)
      × (decode_u64_column chunk.metadata chunk.payload ≡ ok (map as_u64 (cells_of r column rows)))
unfolding encode_u64_column
decode_u64_column-encode_u64_column r column rows valid admissible range suited few =
    let cells = cells_of r column rows in
    let size : length cells ≡ length rows =
      length-map (λ (row : r.Row). r.get row column.name) rows in
    let ((validity, values), e) =
      collect-Admissible as_u64 numeric_refusals column.nullable cells admissible in
    let known =
      collect-Collected as_u64 numeric_refusals missing_values column.nullable cells
        (validity, values) e in
    let words : All IsU64 values = rw (known.picked) (present_of-IsU64 cells range) in
    let enough : length values ≤ max_decoded_values =
      omega (arith, known.present, known.rows, count_absent-present validity, size, few) in
    let (encoded, f, written) =
      encode_values-Encoded column.codec values (rw (known.picked) suited) words enough in
    let room : ltb (length values * 8) (2 ^ 64) ≡ true = ground arith in
    (
      numeric_chunk column validity values encoded,
      rw (valid, e, f, room) refl,
      decode-numeric_chunk column cells validity values encoded known written
          (omega (arith, size, few)),
    )
