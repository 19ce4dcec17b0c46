-- ===== src/Streaming/Append/Scan.antt =====
-- The scan as a whole: which blocks it returns, and where and why it stops.
use compact_core.Common.{
  value_or, ℕ, zero, suc, ◌+◌, ◌^◌, ◌≤◌, ◌<◌, ◌≡◌, refl, ap, arith, List, [], ◌∷◌, Bool, true,
  false, ltb, Bool-cases, inl, inr, length, length-append, ◌++◌, All, IsByte, IsU32, IsU64, Result,
  ok, err, CompactError, Result-cases, >>=-eq-ok, ◌↔◌,
}
use mathlib.Core.Path.{subst}
use compact_core.Cursor.At.{At-reach}
use compact_core.Config.{column_block}
use compact_core.Framing.Parts.{length-encode_v1}
use compact_core.Primitives.Delta.{checked_add, ok_or}
use compact_core.Primitives.Delta.Unsigned.{checked_add-sum, checked_add-room, checked_add-fits}
use compact_core.Streaming.{BlockMetadata, max_stream_blocks}
use compact_core.Streaming.Writer.{encode_block_payload}
use compact_core.Streaming.Append.{
  index_overflow, rows_overflow, offset_overflow, frame_header_len, next_record, scan,
}
use compact_core.Streaming.Append.Record.{IsRecord, frame_of, IsRecord-next_record}
use compact_core.Streaming.Append.Accepted.{next_record-IsRecord}

abbrev Found : Type 0
Found = List BlockMetadata × ℕ × Bool

refused :
    {A : Type 0} {a : A} (r : Result A) (failure : CompactError) → r ≡ err failure → r ≡ ok a → ⊥
refused r failure e e' = cc

module _ (hash : List ℕ → ℕ) where
  -- From the cursor on stand the records of `blocks`, which end at `end`: there `bytes` ends, or, if
  -- `broken`, something follows that is no record.
  abbrev pub Recovered :
      List ℕ → (cursor index rows : ℕ) → List BlockMetadata → (end : ℕ) → Bool → Type 0
  Recovered bytes cursor index rows [] end false = (end ≡ cursor) × (length bytes ≤ cursor)
  Recovered bytes cursor index rows [] end true =
      (end ≡ cursor)
      × (cursor < length bytes)
      × ¬ ((block : BlockMetadata) × IsRecord hash bytes cursor index rows block)
  Recovered bytes cursor index rows (block ∷ blocks) end broken =
      IsRecord hash bytes cursor index rows block
      × IsU64 (rows + block.row_count)
      × Recovered bytes (cursor + block.compressed_size) (index + 1) (rows + block.row_count) blocks
          end broken

module _ (hash : List ℕ → ℕ) (word : (payload : List ℕ) → IsU32 (hash payload)) where
  IsRecord-size :
      (bytes : List ℕ) (cursor index rows : ℕ) (block : BlockMetadata)
      → IsRecord hash bytes cursor index rows block
      → (frame_header_len ≤ block.compressed_size)
        × (cursor + block.compressed_size ≤ length bytes)
        × (index < max_stream_blocks)
  IsRecord-size bytes cursor index rows block (group, back, writable, few, at, described) =
      let payload = encode_block_payload index rows group.row_count group.raw_bytes group.payload in
      let size : block.compressed_size ≡ frame_header_len + length payload =
        ap (λ b. b.compressed_size) described in
      let reach = At-reach bytes cursor (frame_of hash index rows group ++ back) at in
      let split = length-append (frame_of hash index rows group) back in
      let framed = length-encode_v1 hash column_block payload in
      (omega (arith, size), omega (arith, size, reach, split, framed), few)

  -- A scan that stopped at its first round.
  stopped :
      (bytes : List ℕ) (cursor index rows : ℕ) (torn : Bool) (found : Found)
      → Recovered hash bytes cursor index rows [] cursor torn
      → ok ([], cursor, torn) ≡ ok found
      → Recovered hash bytes cursor index rows found.0 found.1 found.2
  stopped bytes cursor index rows torn found h e =
      subst (λ f. Recovered hash bytes cursor index rows f.0 f.1 f.2) (ap (value_or found) e) h

  Recovered-moved :
      (bytes : List ℕ) (cursor cursor' index index' rows rows' : ℕ) (found : Found)
      → cursor ≡ cursor'
      → index ≡ index'
      → rows ≡ rows'
      → Recovered hash bytes cursor index rows found.0 found.1 found.2
      → Recovered hash bytes cursor' index' rows' found.0 found.1 found.2
  Recovered-moved bytes cursor cursor' index index' rows rows' found c i r h =
      subst (λ t. Recovered hash bytes t index' rows' found.0 found.1 found.2) c
        (subst (λ t. Recovered hash bytes cursor t rows' found.0 found.1 found.2) i
          (subst (λ t. Recovered hash bytes cursor index t found.0 found.1 found.2) r h))

  scan-Recovered :
      (rounds : ℕ) (bytes : List ℕ) (cursor index rows : ℕ) (found : Found)
      → All IsByte bytes
      → IsU64 rows
      → length bytes ≤ cursor + rounds
      → scan hash rounds bytes cursor index rows ≡ ok found
      → Recovered hash bytes cursor index rows found.0 found.1 found.2
  unfolding scan
  scan-Recovered zero bytes cursor index rows found octets hr enough e =
      let ended : ltb cursor (length bytes) ≡ false = ground arith in
      stopped bytes cursor index rows false found (refl, omega arith) (rw (scan, ended) at e)
  scan-Recovered (suc rounds) bytes cursor index rows found octets hr enough e =
      elim (Bool-cases (ltb cursor (length bytes))) [
        | inr ended ↦
            stopped bytes cursor index rows false found (refl, ground arith) (rw (scan, ended) at e)
        | inl going ↦ elim (Result-cases (next_record hash bytes cursor index rows)) [
          | inr (failure, torn) ↦
              stopped bytes cursor index rows true found
                (
                  refl,
                  ground arith,
                  λ r.
                      refused _ failure torn
                        (IsRecord-next_record hash bytes cursor index rows r.0 word hr r.1),
                )
                (rw (scan, going, torn) at e)
          | inl (block, read) ↦
              let (next_index, a1, e1) =
                >>=-eq-ok _ (ok_or (checked_add index 1) index_overflow)
                  (rw (scan, going, read) at e) in
              let (next_rows, a2, e2) =
                >>=-eq-ok _ (ok_or (checked_add rows block.row_count) rows_overflow) e1 in
              let (next, a3, e3) =
                >>=-eq-ok _ (ok_or (checked_add cursor block.compressed_size) offset_overflow) e2 in
              let (later, a4, e4) =
                >>=-eq-ok _ (scan hash rounds bytes next next_index next_rows) e3 in
              let record_here =
                next_record-IsRecord hash bytes cursor index rows block word octets read in
              let s1 = checked_add-sum index 1 next_index _ a1 in
              let s2 = checked_add-sum rows block.row_count next_rows _ a2 in
              let s3 = checked_add-sum cursor block.compressed_size next _ a3 in
              let word_rows = checked_add-fits rows block.row_count next_rows _ a2 in
              let size = (IsRecord-size bytes cursor index rows block record_here).0 in
              let rest =
                scan-Recovered rounds bytes next next_index next_rows later octets word_rows
                  (omega (arith, s3, size)) a4 in
              let at_next : Recovered hash bytes (cursor + block.compressed_size) (index + 1)
                  (rows + block.row_count) later.0 later.1 later.2 =
                Recovered-moved bytes next _ next_index _ next_rows _ later s3 s1 s2 rest in
              subst (λ f. Recovered hash bytes cursor index rows f.0 f.1 f.2)
                (ap (value_or found) e4) (record_here, omega (arith, s2, word_rows), at_next)
        ]
      ]

  Recovered-scan :
      (rounds : ℕ) (bytes : List ℕ) (cursor index rows : ℕ) (blocks : List BlockMetadata) (end : ℕ)
      (broken : Bool)
      → All IsByte bytes
      → length bytes < 2 ^ 64
      → IsU64 rows
      → length bytes ≤ cursor + rounds
      → Recovered hash bytes cursor index rows blocks end broken
      → scan hash rounds bytes cursor index rows ≡ ok (blocks, end, broken)
  unfolding scan
  Recovered-scan zero bytes cursor index rows [] end false octets fits hr enough (stop, over) =
      let ended : ltb cursor (length bytes) ≡ false = ground arith in
      rw (stop) (rw (scan, ended) refl)
  Recovered-scan zero bytes cursor index rows [] end true octets fits hr enough
        (stop, more, none_here) =
      absurd (omega arith)
  Recovered-scan zero bytes cursor index rows (block ∷ blocks) end broken octets fits hr enough
        (found, word_rows, rest) =
      let (size, reach, few) = IsRecord-size bytes cursor index rows block found in
      absurd (omega (arith, size, reach))
  Recovered-scan (suc rounds) bytes cursor index rows [] end false octets fits hr enough
        (stop, over) =
      let ended : ltb cursor (length bytes) ≡ false = ground arith in
      rw (stop) (rw (scan, ended) refl)
  Recovered-scan (suc rounds) bytes cursor index rows [] end true octets fits hr enough
        (stop, more, none_here) =
      let going : ltb cursor (length bytes) ≡ true = ground arith in
      elim (Result-cases (next_record hash bytes cursor index rows)) [
        | inl (block, found) ↦ absurd (
            none_here
              (block, next_record-IsRecord hash bytes cursor index rows block word octets found))
        | inr (failure, broken) ↦ rw (stop) (rw (scan, going, broken) refl)
      ]
  Recovered-scan (suc rounds) bytes cursor index rows (block ∷ blocks) end broken octets fits hr
        enough (found, word_rows, rest) =
      let (size, reach, few) = IsRecord-size bytes cursor index rows block found in
      let going : ltb cursor (length bytes) ≡ true = ground (arith, size, reach) in
      let read = IsRecord-next_record hash bytes cursor index rows block word hr found in
      let e1 : ok_or (checked_add index 1) index_overflow ≡ ok (index + 1) =
        checked_add-room index 1 _ (omega (arith, few)) in
      let e2 : ok_or (checked_add rows block.row_count) rows_overflow
          ≡ ok (rows + block.row_count) =
        checked_add-room rows block.row_count _ word_rows in
      let e3 : ok_or (checked_add cursor block.compressed_size) offset_overflow
          ≡ ok (cursor + block.compressed_size) =
        checked_add-room cursor block.compressed_size _ (omega (arith, reach, fits)) in
      let later =
        Recovered-scan rounds bytes (cursor + block.compressed_size) (index + 1)
          (rows + block.row_count) blocks end broken octets fits word_rows (omega (arith, size))
          rest in
      rw (scan, going, read, e1, e2, e3, later) refl

  pub scan_iff :
      (rounds : ℕ) (bytes : List ℕ) (cursor index rows : ℕ) (blocks : List BlockMetadata) (end : ℕ)
      (broken : Bool)
      → All IsByte bytes
      → length bytes < 2 ^ 64
      → IsU64 rows
      → length bytes ≤ cursor + rounds
      → (scan hash rounds bytes cursor index rows ≡ ok (blocks, end, broken))
        ↔ Recovered hash bytes cursor index rows blocks end broken
  scan_iff rounds bytes cursor index rows blocks end broken octets fits hr enough = (
    scan-Recovered rounds bytes cursor index rows (blocks, end, broken) octets hr enough,
    Recovered-scan rounds bytes cursor index rows blocks end broken octets fits hr enough,
  )
