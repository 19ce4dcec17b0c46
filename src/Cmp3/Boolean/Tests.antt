-- ===== src/Cmp3/Boolean/Tests.antt =====
-- A nullable boolean column in the manner of the source's tests.
use compact_core.Common.{
  ◌≡◌, refl, arith, List, [], ◌∷◌, Bool, true, false, none, some, ok, err, invalid_input,
}
use compact_core.Schema.{ColumnSchema, bool, bitmap}
use compact_core.Cmp3.Cells.{Cell, missing, null, boolean, unsigned, Rows, EncodedColumnChunk}
use compact_core.Cmp3.Cells.Collected.{value_in, null_in, missing_in}
use compact_core.Cmp3.Boolean.{
  validate_boolean_column, encode_boolean_column, decode_boolean_column,
}
use compact_core.Cmp3.Boolean.RoundTrip.{decode_boolean_column-encode_boolean_column}

-- Rows with one key, each given by what stands there.
abbrev one_key : Rows
one_key = record { Row = Cell; get = λ row name. row }

abbrev active : Bool → ColumnSchema
active nullable = record { name = "active"; value_type = bool; codec = bitmap; nullable = nullable }

abbrev four_rows : List Cell
four_rows = boolean true ∷ null ∷ boolean false ∷ missing ∷ []

refusals :
    (encode_boolean_column one_key (active false) (boolean true ∷ null ∷ [])
      ≡ err (invalid_input "required boolean column must not be null"))
    × (encode_boolean_column one_key (active false) (missing ∷ [])
        ≡ err (invalid_input "jsonl row missing required boolean column"))
    × (encode_boolean_column one_key (active true) (unsigned 1 ∷ [])
        ≡ err (invalid_input "jsonl boolean column must be bool or null"))
unfolding encode_boolean_column
refusals = (refl, refl, refl)

decode_boolean_column-encode_boolean_column_example :
    (chunk : EncodedColumnChunk) × (encode_boolean_column one_key (active true) four_rows
      ≡ ok chunk)
    × (decode_boolean_column chunk.metadata chunk.payload
        ≡ ok (some true ∷ none ∷ some false ∷ none ∷ []))
unfolding validate_boolean_column
decode_boolean_column-encode_boolean_column_example =
    decode_boolean_column-encode_boolean_column one_key (active true) four_rows refl
      (value_in true refl, (null_in refl refl, (value_in false refl, (missing_in refl refl, tt))))
      (omega arith)
