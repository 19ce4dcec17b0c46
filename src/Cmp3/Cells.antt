-- ===== src/Cmp3/Cells.antt =====
-- What the column codecs of codecs/v3 share: the values of a column in JSON rows, and the nulls among
-- them. A row is a `serde_json::Map`, of which they use `get`: the type of rows is a parameter.
pub mod Collected
use compact_core.Common.{
  ℕ, zero, suc, ◌+◌, ◌-◌, String, List, [], ◌∷◌, ◌++◌, Bool, true, false, not, Option, none, some,
  leb, ◌==◌, if◌then◌else◌, length, take, drop, replicate, Result, ok, err, ◌>>=◌, ◌>>◌, ensure,
  CompactError, invalid_input,
}
use compact_core.Cmp3.Metadata.{ColumnChunkMetadata}
use compact_core.Primitives.Bitmap
use compact_core.Primitives.Bitmap.{byte_count}

-- `row.get(name)`: no such key, or the JSON value as far as the codecs look into it. A number is
-- `unsigned` where its `as_u64` is `some`; a text is its UTF-8 bytes.
pub data Cell : Type 0 where
  missing null other : Cell
  boolean : Bool → Cell
  unsigned : ℕ → Cell
  text : List ℕ → Cell

pub record Rows : Type 1 where
  pub Row : Type 0
  pub get : Row → String → Cell

pub record EncodedColumnChunk : Type 0 where
  pub metadata : ColumnChunkMetadata
  pub payload : List ℕ

-- The texts of the errors in which the loops over the rows differ.
pub record Refusals : Type 0 where
  pub is_null : CompactError
  pub is_missing : CompactError
  pub is_other : CompactError

abbrev pub refuse : Refusals → Bool → Cell → Result (Unit {0})
refuse refusals nullable null = ensure nullable refusals.is_null
refuse refusals nullable missing = ensure nullable refusals.is_missing
refuse refusals nullable cell = err refusals.is_other

module _ {A : Type 0} where
  -- One row: the value in it, or a null where the column admits it.
  abbrev pub absent : Refusals → Bool → Cell → Option A → Result (Option A)
  absent refusals nullable cell (some value) = ok (some value)
  absent refusals nullable cell none = do refuse refusals nullable cell; ok none

  abbrev pub cell_value : (Cell → Option A) → Refusals → Bool → Cell → Result (Option A)
  cell_value pick refusals nullable cell = absent refusals nullable cell (pick cell)

  abbrev pub push : Option A → List Bool × List A → List Bool × List A
  push none (validity, values) = (false ∷ validity, values)
  push (some value) (validity, values) = (true ∷ validity, value ∷ values)

  -- The loop over the rows, which fills `validity` and `values`.
  unfoldable pub collect :
      (Cell → Option A) → Refusals → Bool → List Cell → Result (List Bool × List A)
  collect pick refusals nullable [] = ok ([], [])
  collect pick refusals nullable (cell ∷ cells) = do
    value ← cell_value pick refusals nullable cell
    rest ← collect pick refusals nullable cells
    ok (push value rest)

  -- The loop that puts the values and the nulls together; the values left over are the second part.
  unfoldable pub restore : CompactError → List Bool → List A → Result (List (Option A) × List A)
  restore failure [] values = ok ([], values)
  restore failure (false ∷ validity) values = do
    (decoded, left) ← restore failure validity values
    ok (none ∷ decoded, left)
  restore failure (true ∷ validity) [] = err failure
  restore failure (true ∷ validity) (value ∷ values) = do
    (decoded, left) ← restore failure validity values
    ok (some value ∷ decoded, left)

-- `validity.iter().filter(|&&present| present).count()`, and the same of the others.
unfoldable pub count_present : List Bool → ℕ
count_present [] = 0
count_present (true ∷ validity) = suc (count_present validity)
count_present (false ∷ validity) = count_present validity

unfoldable pub count_absent : List Bool → ℕ
count_absent [] = 0
count_absent (true ∷ validity) = count_absent validity
count_absent (false ∷ validity) = suc (count_absent validity)

-- The validity bitmap, which only a nullable column has.
abbrev pub validity_bytes : Bool → List Bool → List ℕ
validity_bytes nullable validity = if nullable then Bitmap.encode validity else []

-- The validity of the rows from the front of the payload, and the payload behind it.
unfoldable pub read_validity :
    CompactError → Bool → (value_count non_null_count : ℕ) → List ℕ → Result (List Bool × List ℕ)
read_validity truncated nullable value_count non_null_count payload =
    let validity_len = if nullable then byte_count value_count else 0 in
    (do
      ensure (leb validity_len (length payload)) truncated
      validity ←
          if nullable
          then Bitmap.decode (take validity_len payload) value_count
          else ok (replicate value_count true)
      ensure (count_present validity == non_null_count)
          (invalid_input "cmp3 validity bitmap does not match null count")
      ok (validity, drop validity_len payload))
