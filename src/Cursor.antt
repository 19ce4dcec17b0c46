-- ===== src/Cursor.antt =====
-- Reading a byte slice at a cursor, as the decoders of search/postings.rs, search/dictionary.rs and
-- others do. A reader that moves a cursor returns the new one with its value; on an error the caller
-- returns as well.
pub mod At
pub mod Taken
use compact_core.Common.{
  ℕ, List, leb, length, take, drop, from_le_bytes, Result, ok, err, ◌>>=◌, ◌>>◌, ensure,
  CompactError,
}
use compact_core.Primitives.Delta.{checked_add, ok_or}
use compact_core.Primitives.Varint.{read_u64}

abbrev pub moved : Result ℕ × ℕ → Result (ℕ × ℕ)
moved (ok value, cursor) = ok (value, cursor)
moved (err failure, cursor) = err failure

-- `varint::read_u64(data, &mut cursor)?`
unfoldable pub read : List ℕ → ℕ → Result (ℕ × ℕ)
read bytes cursor = moved (read_u64 bytes cursor)

-- The `take_section` functions, which differ in the text of their errors. `usize::try_from` keeps
-- every u64, as `usize` has 64 bits. `data.get(a..b)` is `none` when `b` is behind the end.
unfoldable pub section_at : CompactError → List ℕ → ℕ → ℕ → CompactError → Result (List ℕ × ℕ)
section_at overflow bytes cursor len message = do
  end ← ok_or (checked_add cursor len) overflow
  ensure (leb end (length bytes)) message
  ok (take len (drop cursor bytes), end)

-- An integer of `width` bytes, lowest first: the `read_u16`, `read_u32` and `read_u64` functions.
unfoldable pub number_at : CompactError → ℕ → List ℕ → ℕ → CompactError → Result (ℕ × ℕ)
unfolding section_at
number_at overflow width bytes cursor message = do
  (slice, next) ← section_at overflow bytes cursor width message
  ok (from_le_bytes slice, next)
