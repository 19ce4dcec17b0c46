-- ===== src/Streaming/Writer/Consistent.antt =====
-- The invariant of the block writer: its index describes the bytes that it has written, and the rows
-- that it holds back are below the limits of a block.
use compact_core.Common.{
  ℕ, ◌+◌, ◌<◌, ◌≡◌, ◌≢◌, ◌⊎◌, refl, sym, ◌∙◌, arith, List, [], ◌∷◌, ◌++◌, true, false, not, leb,
  ◌==◌, ==_iff, Bool-cases, inl, inr, length, length-append, Result, ok, >>=-eq-ok, ensure-eq-ok,
  length-to_le_bytes,
}
use compact_core.Primitives.Delta.{checked_add, ok_or}
use compact_core.Primitives.Delta.Unsigned.{checked_add-sum}
use compact_core.Streaming.{BlockOptions, validate, BlockMetadata, max_stream_blocks}
use compact_core.Streaming.Lines.{is_blank, normalize_jsonl_line}
use compact_core.Streaming.Writer.{
  file_header_len, stream_header, JsonlRowGroup, JsonlBlockWriter, cleared, started, block_frame,
  block_metadata, with_block, would_exceed, reached_limit, new, write_block, flush_block, with_line,
  make_room, flush_full, write_jsonl_line, write_lines,
}

-- Blocks that follow one another: each has the next index, and starts where the one before ended.
abbrev pub Chained :
    (index offset rows : ℕ) → List BlockMetadata → (last_index last_offset last_rows : ℕ) → Type 0
Chained index offset rows [] last_index last_offset last_rows =
    (index ≡ last_index) × (offset ≡ last_offset) × (rows ≡ last_rows)
Chained index offset rows (block ∷ blocks) last_index last_offset last_rows =
    (block.block_index ≡ index)
    × (block.encoded_offset ≡ offset)
    × Chained (index + 1) (offset + block.compressed_size) (rows + block.row_count) blocks
        last_index last_offset last_rows

Chained-append :
    (index offset rows : ℕ) (blocks : List BlockMetadata) (last_index last_offset last_rows : ℕ)
    (block : BlockMetadata)
    → Chained index offset rows blocks last_index last_offset last_rows
    → block.block_index ≡ last_index
    → block.encoded_offset ≡ last_offset
    → Chained index offset rows
        (blocks ++ block ∷ [])
        (last_index + 1)
        (last_offset + block.compressed_size)
        (last_rows + block.row_count)
Chained-append index offset rows [] i o r block (hi, ho, hr) at start =
    (at ∙ sym hi, start ∙ sym ho, (omega (arith, hi), omega (arith, ho), omega (arith, hr)))
Chained-append index offset rows (first ∷ blocks) i o r block (hi, ho, rest) at start = (
  hi,
  ho,
  Chained-append (index + 1) (offset + first.compressed_size) (rows + first.row_count) blocks i o r
      block rest at start,
)

-- Between two blocks, and at any time between two lines.
pub record Steady (w : JsonlBlockWriter) : Type 0 where
  pub chained :
      Chained 0 file_header_len 0 w.metadata w.blocks_written w.bytes_written w.rows_written
  pub measured : length w.writer ≡ w.bytes_written
  pub some_rows : 0 < w.options.max_rows_per_block
  pub some_bytes : 0 < w.options.max_uncompressed_bytes_per_block
  pub counted : w.current.raw_bytes ≡ length w.current.text

abbrev pub Consistent : JsonlBlockWriter → Type 0
Consistent w = Steady w × (reached_limit w.current w.options ≡ false)

empty_below :
    (options : BlockOptions)
    → 0 < options.max_rows_per_block
    → 0 < options.max_uncompressed_bytes_per_block
    → reached_limit cleared options ≡ false
empty_below options rows bytes = ground arith

validate-positive :
    (options accepted : BlockOptions)
    → validate options ≡ ok accepted
    → (0 < accepted.max_rows_per_block) × (0 < accepted.max_uncompressed_bytes_per_block)
unfolding validate
validate-positive options accepted e =
    let (rows, e1) = ensure-eq-ok (not (options.max_rows_per_block == 0)) _ e in
    let (bytes, e2) = ensure-eq-ok (not (options.max_uncompressed_bytes_per_block == 0)) _ e1 in
    let same : options ≡ accepted = cc in
    rw (sym same) (
      positive options.max_rows_per_block rows,
      positive options.max_uncompressed_bytes_per_block bytes,
    )
  where
    positive : (n : ℕ) → not (n == 0) ≡ true → 0 < n
    positive n h = ground arith

new-Consistent : (options : BlockOptions) (w : JsonlBlockWriter) → new options ≡ ok w → Consistent w
unfolding new stream_header
new-Consistent options w e =
    let (accepted, valid, e1) = >>=-eq-ok _ (validate options) e in
    let same : started accepted ≡ w = cc in
    let (rows, bytes) = validate-positive options accepted valid in
    rw (sym same) (
      record {
        chained = (refl, refl, refl);
        measured = omega (arith, length-to_le_bytes 4 0);
        some_rows = rows;
        some_bytes = bytes;
        counted = refl;
      },
      empty_below accepted rows bytes,
    )

module _ (hash : List ℕ → ℕ) (encode_row_group : List ℕ → Result JsonlRowGroup) where
  write_block-Consistent :
      (w w' : JsonlBlockWriter) (group : JsonlRowGroup)
      → Steady w
      → write_block hash encode_row_group w group ≡ ok w'
      → Consistent w'
  unfolding write_block
  write_block-Consistent w w' group steady e =
      let (blocks, e1, f1) = >>=-eq-ok _ (ok_or (checked_add w.blocks_written 1) _) e in
      let (rows, e2, f2) = >>=-eq-ok _ (ok_or (checked_add w.rows_written group.row_count) _) f1 in
      let (written, e3, f3) =
        >>=-eq-ok _
          (ok_or (checked_add w.bytes_written (length (block_frame hash encode_row_group w group)))
            _)
          f2 in
      let same : with_block hash encode_row_group w group blocks rows written ≡ w' = cc in
      let next = checked_add-sum w.blocks_written 1 blocks _ e1 in
      let total = checked_add-sum w.rows_written group.row_count rows _ e2 in
      let end =
        checked_add-sum w.bytes_written (length (block_frame hash encode_row_group w group)) written
          _ e3 in
      rw (sym same) (
        record {
          chained =
              rw (next, total, end)
                (Chained-append 0 file_header_len 0 w.metadata w.blocks_written w.bytes_written
                  w.rows_written (block_metadata hash encode_row_group w group) steady.chained refl
                  refl);
          measured =
              length-append w.writer (block_frame hash encode_row_group w group)
              ∙ omega (arith, steady.measured, end);
          some_rows = steady.some_rows;
          some_bytes = steady.some_bytes;
          counted = refl;
        },
        empty_below w.options steady.some_rows steady.some_bytes,
      )

  flush_block-Consistent :
      (w w' : JsonlBlockWriter)
      → Steady w
      → (w.current.row_count ≢ 0) ⊎ (reached_limit w.current w.options ≡ false)
      → flush_block hash encode_row_group w ≡ ok w'
      → Consistent w'
  unfolding flush_block
  flush_block-Consistent w w' steady why e = elim (Bool-cases (w.current.row_count == 0)) [
    | inl none ↦
        let at = rw (none) at e in
        let same : w ≡ w' = cc in
        elim why [
          | inl some_row ↦ absurd (some_row ((==_iff w.current.row_count 0).0 none))
          | inr below ↦ rw (sym same) (steady, below)
        ]
    | inr some_row ↦
        let at = rw (some_row) at e in
        let (room, e1) = ensure-eq-ok (not (leb max_stream_blocks w.blocks_written)) _ at in
        let (group, encoded, e2) = >>=-eq-ok _ (encode_row_group w.current.text) e1 in
        write_block-Consistent w w' group steady e2
  ]

  make_room-Consistent :
      (w w' : JsonlBlockWriter) (line : List ℕ)
      → Consistent w
      → make_room hash encode_row_group line w ≡ ok w'
      → Consistent w'
  make_room-Consistent w w' line (steady, below) e =
      elim (Bool-cases (would_exceed w.current line w.options)) [
        | inl exceeds ↦ flush_block-Consistent w w' steady (inr below) (rw (exceeds) at e)
        | inr fits ↦
            let at = rw (fits) at e in let same : w ≡ w' = cc in rw (sym same) (steady, below)
      ]

  with_line-Steady :
      (line : List ℕ) (w : JsonlBlockWriter)
      → Steady w
      → Steady (with_line hash encode_row_group line w)
  with_line-Steady line w steady = record {
    chained = steady.chained;
    measured = steady.measured;
    some_rows = steady.some_rows;
    some_bytes = steady.some_bytes;
    counted = omega (arith, steady.counted, length-append w.current.text line);
  }

  flush_full-Consistent :
      (w w' : JsonlBlockWriter)
      → Steady w
      → w.current.row_count ≢ 0
      → flush_full hash encode_row_group w ≡ ok w'
      → Consistent w'
  flush_full-Consistent w w' steady some_row e =
      elim (Bool-cases (reached_limit w.current w.options)) [
        | inl full ↦ flush_block-Consistent w w' steady (inl some_row) (rw (full) at e)
        | inr below ↦
            let at = rw (below) at e in let same : w ≡ w' = cc in rw (sym same) (steady, below)
      ]

  write_jsonl_line-Consistent :
      (w w' : JsonlBlockWriter) (line : List ℕ)
      → Consistent w
      → write_jsonl_line hash encode_row_group w line ≡ ok w'
      → Consistent w'
  unfolding write_jsonl_line
  write_jsonl_line-Consistent w w' line consistent e = elim (Bool-cases (is_blank line)) [
    | inl blank ↦ let at = rw (blank) at e in let same : w ≡ w' = cc in rw (sym same) consistent
    | inr some_text ↦
        let at = rw (some_text) at e in
        let (normal, normalized, e1) = >>=-eq-ok _ (normalize_jsonl_line line) at in
        let (short, e2) =
          ensure-eq-ok (leb (length normal) w.options.max_uncompressed_bytes_per_block) _ e1 in
        let (roomy, made, e3) = >>=-eq-ok _ (make_room hash encode_row_group normal w) e2 in
        let (steady, below) = make_room-Consistent w roomy normal consistent made in
        flush_full-Consistent (with_line hash encode_row_group normal roomy) w'
          (with_line-Steady normal roomy steady) (λ bad. absurd (ground arith)) e3
  ]

  write_lines-Consistent :
      (w w' : JsonlBlockWriter) (lines : List (List ℕ))
      → Consistent w
      → write_lines hash encode_row_group w lines ≡ ok w'
      → Consistent w'
  unfolding write_lines
  write_lines-Consistent w w' [] consistent e = let same : w ≡ w' = cc in rw (sym same) consistent
  write_lines-Consistent w w' (line ∷ lines) consistent e =
      let (next, written, e1) = >>=-eq-ok _ (write_jsonl_line hash encode_row_group w line) e in
      write_lines-Consistent next w' lines
        (write_jsonl_line-Consistent w next line consistent written) e1

  -- Of a new writer, after any lines that it takes: the blocks of the index follow one another without
  -- a gap in their numbers and offsets, their rows and bytes add up to the counters, the bytes written
  -- are as many as counted, and the rows held back are below both limits of a block.
  pub write_lines-new-Consistent :
      (options : BlockOptions) (w w' : JsonlBlockWriter) (lines : List (List ℕ))
      → new options ≡ ok w
      → write_lines hash encode_row_group w lines ≡ ok w'
      → Consistent w'
  write_lines-new-Consistent options w w' lines start e =
      write_lines-Consistent w w' lines (new-Consistent options w start) e
