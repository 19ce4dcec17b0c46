-- ===== src/Streaming/Append/Totals.antt =====
-- The totals of a scan.
use compact_core.Common.{
  ℕ, ◌+◌, ◌≡◌, ap, arith, List, [], ◌∷◌, IsU64, ok, >>=-eq-ok, ◌↔◌, CompactError,
}
use compact_core.Primitives.Delta.{checked_add, ok_or}
use compact_core.Primitives.Delta.Unsigned.{checked_add-sum, checked_add-room, checked_add-fits}
use compact_core.Streaming.{BlockMetadata}
use compact_core.Streaming.Append.{checked_total}

abbrev pub sum_of : (BlockMetadata → ℕ) → List BlockMetadata → ℕ
sum_of value [] = 0
sum_of value (block ∷ blocks) = value block + sum_of value blocks

checked_total-sum :
    (value : BlockMetadata → ℕ) (failure : CompactError) (total sum : ℕ)
    (blocks : List BlockMetadata)
    → IsU64 total
    → checked_total value failure total blocks ≡ ok sum
    → (sum ≡ total + sum_of value blocks) × IsU64 sum
unfolding checked_total
checked_total-sum value failure total sum [] h e =
    let same : total ≡ sum = cc in (omega (arith, same), omega (arith, same))
checked_total-sum value failure total sum (block ∷ blocks) h e =
    let (next, a, e') = >>=-eq-ok _ (ok_or (checked_add total (value block)) failure) e in
    let added = checked_add-sum total (value block) next failure a in
    let word = checked_add-fits total (value block) next failure a in
    let (rest, fits) = checked_total-sum value failure next sum blocks word e' in
    (omega (arith, added, rest), fits)

checked_total-room :
    (value : BlockMetadata → ℕ) (failure : CompactError) (total : ℕ) (blocks : List BlockMetadata)
    → IsU64 (total + sum_of value blocks)
    → checked_total value failure total blocks ≡ ok (total + sum_of value blocks)
unfolding checked_total
checked_total-room value failure total [] h = ap ok (omega arith)
checked_total-room value failure total (block ∷ blocks) h =
    let a = checked_add-room total (value block) failure (omega (arith, h)) in
    let same : total + value block + sum_of value blocks
        ≡ total + (value block + sum_of value blocks) =
      omega arith in
    let rest = checked_total-room value failure (total + value block) blocks (omega (arith, h)) in
    rw (checked_total, a, rest) (ap ok same)

pub checked_total_iff :
    (value : BlockMetadata → ℕ) (failure : CompactError) (sum : ℕ) (blocks : List BlockMetadata)
    → (checked_total value failure 0 blocks ≡ ok sum) ↔ ((sum ≡ sum_of value blocks) × IsU64 sum)
checked_total_iff value failure sum blocks = (
  λ e.
      let (same, fits) = checked_total-sum value failure 0 sum blocks (omega arith) e in
      (omega (arith, same), fits),
  λ h.
      let room = checked_total-room value failure 0 blocks (omega (arith, h.0, h.1)) in
      let same : 0 + sum_of value blocks ≡ sum = omega (arith, h.0) in rw (same) at room,
)
