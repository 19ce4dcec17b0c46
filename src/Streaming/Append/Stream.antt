-- ===== src/Streaming/Append/Stream.antt =====
-- What `recover_append_stream` returns for any bytes.
use compact_core.Common.{
  value_or, ℕ, ◌^◌, ◌≤◌, ◌<◌, ◌≡◌, refl, sym, ap, ◌⊎◌, arith, List, true, false, ltb, ◌==◌,
  Bool-cases, inl, inr, length, All, IsByte, IsU32, IsU64, ok, >>=-eq-ok, ◌↔◌,
}
use compact_core.Streaming.{BlockMetadata}
use mathlib.Core.Path.{subst}
use compact_core.Streaming.Append.{
  rows_overflow, raw_overflow, encoded_overflow, AppendRecovery, stream_header_len, empty_recovery,
  scan, checked_total, has_stream_header, recover_blocks, recover_append_stream,
}
use compact_core.Streaming.Append.Scan.{Recovered, scan_iff}
use compact_core.Streaming.Append.Totals.{sum_of, checked_total_iff}
use compact_core.Streaming.Append.Header.{HasHeader, has_stream_header_iff, HasHeader-length}

-- The totals are the sums over the blocks, and fit in 64 bits.
abbrev pub IsTotal : (BlockMetadata → ℕ) → List BlockMetadata → ℕ → Type 0
IsTotal value blocks sum = (sum ≡ sum_of value blocks) × IsU64 sum

abbrev pub HasTotals : AppendRecovery → Type 0
HasTotals r =
    IsTotal (λ b. b.row_count) r.blocks r.total_rows
    × IsTotal (λ b. b.uncompressed_size) r.blocks r.total_uncompressed_size
    × IsTotal (λ b. b.compressed_size) r.blocks r.total_compressed_size

module _ (hash : List ℕ → ℕ) where
  -- The records of the stream behind its header, up to its end or to the first bytes that are no
  -- record.
  abbrev pub RecoveredBlocks : List ℕ → AppendRecovery → Type 0
  RecoveredBlocks bytes r =
      Recovered hash bytes stream_header_len 0 0 r.blocks r.valid_len r.truncated_or_corrupt_tail
      × HasTotals r

  -- What is recovered of any bytes.
  abbrev pub Recovery : List ℕ → AppendRecovery → Type 0
  Recovery bytes r =
      ((length bytes ≡ 0) × (r ≡ empty_recovery false))
      ⊎ (((0 < length bytes) × ¬ HasHeader bytes × (r ≡ empty_recovery true))
          ⊎ (HasHeader bytes × RecoveredBlocks bytes r))

  module _ (word : (payload : List ℕ) → IsU32 (hash payload)) (bytes : List ℕ)
      (octets : All IsByte bytes) (fits : length bytes < 2 ^ 64) where
    recover_blocks-RecoveredBlocks :
        (r : AppendRecovery) → recover_blocks hash bytes ≡ ok r → RecoveredBlocks bytes r
    unfolding recover_blocks
    recover_blocks-RecoveredBlocks r e =
        let ((blocks, end, broken), scanned, e1) =
          >>=-eq-ok _ (scan hash (length bytes) bytes stream_header_len 0 0) e in
        let (rows, t1, e2) =
          >>=-eq-ok _ (checked_total (λ b. b.row_count) rows_overflow 0 blocks) e1 in
        let (raw, t2, e3) =
          >>=-eq-ok _ (checked_total (λ b. b.uncompressed_size) raw_overflow 0 blocks) e2 in
        let (encoded, t3, e4) =
          >>=-eq-ok _ (checked_total (λ b. b.compressed_size) encoded_overflow 0 blocks) e3 in
        let found =
          (scan_iff hash word (length bytes) bytes stream_header_len 0 0 blocks end broken octets
              fits (omega arith) (omega arith)).0
            scanned in
        let u1 = (checked_total_iff (λ b. b.row_count) rows_overflow rows blocks).0 t1 in
        let u2 = (checked_total_iff (λ b. b.uncompressed_size) raw_overflow raw blocks).0 t2 in
        let u3 =
          (checked_total_iff (λ b. b.compressed_size) encoded_overflow encoded blocks).0 t3 in
        subst (RecoveredBlocks bytes) (ap (value_or r) e4) (found, (u1, u2, u3))

    RecoveredBlocks-recover_blocks :
        (r : AppendRecovery) → RecoveredBlocks bytes r → recover_blocks hash bytes ≡ ok r
    unfolding recover_blocks
    RecoveredBlocks-recover_blocks r (found, (u1, u2, u3)) =
        let scanned =
          (scan_iff hash word (length bytes) bytes stream_header_len 0 0 r.blocks r.valid_len
              r.truncated_or_corrupt_tail octets fits (omega arith) (omega arith)).1
            found in
        let t1 = (checked_total_iff (λ b. b.row_count) rows_overflow r.total_rows r.blocks).1 u1 in
        let t2 =
          (checked_total_iff (λ b. b.uncompressed_size) raw_overflow r.total_uncompressed_size
              r.blocks).1
            u2 in
        let t3 =
          (checked_total_iff (λ b. b.compressed_size) encoded_overflow r.total_compressed_size
              r.blocks).1
            u3 in
        rw (scanned) (rw (t1, t2, t3) refl)

    -- The four cases of a stream.
    recover_append_stream-Recovery :
        (r : AppendRecovery) → recover_append_stream hash bytes ≡ ok r → Recovery bytes r
    unfolding recover_append_stream
    recover_append_stream-Recovery r e = elim (Bool-cases (length bytes == 0)) [
      | inl none_here ↦
          inl (ground arith, sym (ap (value_or r) (rw (recover_append_stream, none_here) at e)))
      | inr some_here ↦ inr (elim (Bool-cases (ltb (length bytes) stream_header_len)) [
        | inl short ↦
            let less : length bytes < stream_header_len = ground arith in
            inl (
              ground arith,
              λ h. absurd (omega (arith, less, HasHeader-length bytes h)),
              sym (ap (value_or r) (rw (recover_append_stream, some_here, short) at e)),
            )
        | inr long ↦
            let enough : stream_header_len ≤ length bytes = ground arith in
            let header = has_stream_header_iff bytes octets enough in
            elim (Bool-cases (has_stream_header bytes)) [
              | inl headed ↦ inr (
                header.0 headed,
                recover_blocks-RecoveredBlocks r
                    (rw (recover_append_stream, some_here, long, headed) at e),
              )
              | inr other ↦ inl (
                ground arith,
                λ h. let headed = header.1 h in cc,
                sym (ap (value_or r) (rw (recover_append_stream, some_here, long, other) at e)),
              )
            ]
      ])
    ]

    Recovery-recover_append_stream :
        (r : AppendRecovery) → Recovery bytes r → recover_append_stream hash bytes ≡ ok r
    unfolding recover_append_stream
    Recovery-recover_append_stream r (inl (none_here, same)) =
        let empty : (length bytes == 0) ≡ true = ground arith in
        rw (recover_append_stream, empty) (ap ok (sym same))
    Recovery-recover_append_stream r (inr (inl (some_here, headless, same))) =
        let full : (length bytes == 0) ≡ false = ground arith in
        elim (Bool-cases (ltb (length bytes) stream_header_len)) [
          | inl short ↦ rw (recover_append_stream, full, short) (ap ok (sym same))
          | inr long ↦
              let enough : stream_header_len ≤ length bytes = ground arith in
              elim (Bool-cases (has_stream_header bytes)) [
                | inl headed ↦
                    absurd (headless ((has_stream_header_iff bytes octets enough).0 headed))
                | inr other ↦ rw (recover_append_stream, full, long, other) (ap ok (sym same))
              ]
        ]
    Recovery-recover_append_stream r (inr (inr (headed, found))) =
        let enough = HasHeader-length bytes headed in
        let full : (length bytes == 0) ≡ false = ground (arith, enough) in
        let long : ltb (length bytes) stream_header_len ≡ false = ground (arith, enough) in
        let header : has_stream_header bytes ≡ true =
          (has_stream_header_iff bytes octets enough).1 headed in
        let blocks = RecoveredBlocks-recover_blocks r found in
        rw (recover_append_stream, full, long, header) blocks

    -- For bytes with a length below 2^64 and a checksum of 32 bits, `recover_append_stream` returns a
    -- recovery if and only if one of three things holds. There are no bytes, and it is the empty
    -- recovery. Or the bytes do not begin with the header that the writer writes, and it is the empty
    -- recovery with a corrupt tail. Or they do, and behind the header stand, without gaps up to
    -- `valid_len`, the frames of its blocks: each is what the writer writes for a row group with that
    -- index and that many rows before it, has a payload of at most 256 MiB, and is among the first
    -- `max_stream_blocks`; at `valid_len` the bytes end, or something stands that is no such frame, and
    -- the tail is corrupt in that case alone; and the totals are the sums over the blocks and have 64
    -- bits.
    pub recover_append_stream_iff :
        (r : AppendRecovery) → (recover_append_stream hash bytes ≡ ok r) ↔ Recovery bytes r
    recover_append_stream_iff r =
        (recover_append_stream-Recovery r, Recovery-recover_append_stream r)
