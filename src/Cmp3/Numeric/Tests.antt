-- ===== src/Cmp3/Numeric/Tests.antt =====
-- u64 columns in the manner of the source's tests.
use compact_core.Common.{
  ◌-◌, ◌^◌, ◌≡◌, refl, arith, List, [], ◌∷◌, true, none, some, ok, err, invalid_input,
}
use compact_core.Schema.{ColumnSchema, SchemaCodec, u64, delta_bitpack, stored}
use compact_core.Cmp3.Cells.{Cell, missing, null, boolean, unsigned, Rows, EncodedColumnChunk}
use compact_core.Cmp3.Cells.Collected.{value_in, null_in, missing_in}
use compact_core.Cmp3.Numeric.{
  required_width, halvings, bad_codec, validate_column, encode_u64_column, decode_u64_column,
}
use compact_core.Cmp3.Numeric.RoundTrip.{decode_u64_column-encode_u64_column}

abbrev one_key : Rows
one_key = record { Row = Cell; get = λ row name. row }

abbrev id_column : SchemaCodec → ColumnSchema
id_column codec = record { name = "id"; value_type = u64; codec = codec; nullable = true }

abbrev rising_rows : List Cell
rising_rows = unsigned 1000 ∷ null ∷ unsigned 1003 ∷ missing ∷ unsigned (2 ^ 64 - 1) ∷ []

widths :
    (required_width 0 ≡ 0)
    × (required_width 1 ≡ 1)
    × (required_width 255 ≡ 8)
    × (required_width (2 ^ 64 - 1) ≡ 64)
unfolding halvings
widths = (refl, refl, refl, refl)

refusals :
    (encode_u64_column one_key (id_column delta_bitpack) (unsigned 2 ∷ unsigned 1 ∷ [])
      ≡ err (invalid_input "delta bitpack requires monotonic u64 values"))
    × (encode_u64_column one_key (id_column SchemaCodec.rle) [] ≡ err bad_codec)
    × (encode_u64_column one_key (id_column stored) (boolean true ∷ [])
        ≡ err (invalid_input "jsonl u64 column must be an unsigned integer or null"))
unfolding encode_u64_column
refusals = (refl, refl, refl)

decode_u64_column-encode_u64_column_example :
    (chunk : EncodedColumnChunk) × (encode_u64_column one_key (id_column delta_bitpack) rising_rows
      ≡ ok chunk)
    × (decode_u64_column chunk.metadata chunk.payload
        ≡ ok (some 1000 ∷ none ∷ some 1003 ∷ none ∷ some (2 ^ 64 - 1) ∷ []))
unfolding validate_column
decode_u64_column-encode_u64_column_example =
    decode_u64_column-encode_u64_column one_key (id_column delta_bitpack) rising_rows refl
      (
        value_in 1000 refl,
        (
          null_in refl refl,
          (value_in 1003 refl, (missing_in refl refl, (value_in (2 ^ 64 - 1) refl, tt))),
        ),
      )
      (omega arith, (tt, (omega arith, (tt, (omega arith, tt))))) (omega arith, (omega arith, tt))
      (omega arith)
