-- ===== src/Streaming/Writer/Tests.antt =====
-- A writer with blocks of two rows; the row group is the text itself.
use compact_core.Common.{
  ℕ, ◌≡◌, refl, List, [], ◌∷◌, length, to_le_bytes, Result, ok, err, invalid_input,
}
use compact_core.Streaming.{BlockOptions}
use compact_core.Streaming.Writer.{
  JsonlRowGroup, JsonlBlockWriter, started, new, write_jsonl_line, write_lines,
}
use compact_core.Streaming.Writer.Consistent.{Consistent, write_lines-new-Consistent}

abbrev options : BlockOptions
options = record { max_rows_per_block = 2; max_uncompressed_bytes_per_block = 64 }

abbrev sum_of : List ℕ → ℕ
sum_of bytes = length bytes

abbrev as_group : List ℕ → Result JsonlRowGroup
as_group text = ok (record { row_count = 2; raw_bytes = length text; payload = text })

abbrev lines : List (List ℕ)
lines = (b'a' ∷ 13 ∷ 10 ∷ []) ∷ (32 ∷ 10 ∷ []) ∷ (b'b' ∷ []) ∷ (b'c' ∷ 10 ∷ []) ∷ []

refusals :
    (new (record { max_rows_per_block = 0; max_uncompressed_bytes_per_block = 1 })
      ≡ err (invalid_input "max rows per block must be greater than zero"))
    × (write_jsonl_line sum_of as_group (started options) (b'a' ∷ 10 ∷ b'b' ∷ [])
        ≡ err (invalid_input "jsonl line must not contain embedded newline"))
unfolding new write_jsonl_line
refusals = (refl, refl)

abbrev or_started : Result JsonlBlockWriter → JsonlBlockWriter
or_started (ok w) = w
or_started (err e) = started options

abbrev after_lines : JsonlBlockWriter
unfolding write_lines
after_lines = or_started (write_lines sum_of as_group (started options) lines)

one_block_and_a_row : (after_lines.blocks_written ≡ 1) × (after_lines.current.row_count ≡ 1)
unfolding to_le_bytes write_lines
one_block_and_a_row = (refl, refl)

after_lines_written : write_lines sum_of as_group (started options) lines ≡ ok after_lines
unfolding write_lines to_le_bytes
after_lines_written = refl

new-started : new options ≡ ok (started options)
unfolding new
new-started = refl

write_lines-new-Consistent_example : Consistent after_lines
write_lines-new-Consistent_example =
    write_lines-new-Consistent sum_of as_group options (started options) after_lines lines
      new-started after_lines_written
