-- ===== src/Primitives/Rle/RoundTrip.antt =====
-- What `encode_rle` writes: runs that stand for the input, as few as possible.
use compact_core.Common.{
  ℕ, zero, suc, ◌+◌, ◌%◌, ◌≤◌, ◌≡◌, ap, ◌∙◌, arith, List, [], ◌∷◌, replicate, length, length-append,
  length-replicate,
}
use compact_core.Primitives.Rle.{extend_run, encode_loop, encode_rle}
use compact_core.Primitives.Rle.Runs.{Stops, IsRun, extend_run-IsRun, Runs, done, run, Shortest}

encode_loop-Runs :
    (fuel : ℕ) (bytes : List ℕ) → length bytes ≤ fuel → Runs (encode_loop fuel bytes) bytes
unfolding encode_loop
encode_loop-Runs fuel [] h = done
encode_loop-Runs zero (byte ∷ rest) h = absurd (omega arith)
encode_loop-Runs (suc fuel) (byte ∷ rest) h =
    let found = extend_run byte rest 1 in
    let r : IsRun byte 1 rest found = extend_run-IsRun byte 1 rest (omega arith) in
    let size : length rest ≡ r.more + length found.1 =
      ap length r.split
      ∙ length-append (replicate r.more byte) found.1
      ∙ ap (λ t. t + length found.1) (length-replicate r.more byte) in
    let small : found.0 % 256 ≡ suc r.more = omega (arith, r.counted, r.within) in
    run (found.0 % 256) byte (encode_loop fuel found.1) found.1 (byte ∷ rest) (omega arith)
      (encode_loop-Runs fuel found.1 (omega arith)) (rw small (ap (λ t. byte ∷ t) r.split))

pub encode_rle-Runs : (bytes : List ℕ) → Runs (encode_rle bytes) bytes
unfolding encode_rle
encode_rle-Runs bytes = encode_loop-Runs (length bytes) bytes (omega arith)

cons-Shortest :
    (fuel count byte : ℕ) (behind : List ℕ)
    → 1 ≤ count
    → count ≤ 255
    → Stops byte count behind
    → length behind ≤ fuel
    → Shortest (encode_loop fuel behind)
    → Shortest (count ∷ byte ∷ encode_loop fuel behind)
unfolding encode_loop
cons-Shortest fuel count byte [] low high stops h rest = (low, high)
cons-Shortest zero count byte (next ∷ bytes) low high stops h rest = absurd (omega arith)
cons-Shortest (suc fuel) count byte (next ∷ bytes) low high stops h rest = (low, high, stops, rest)

encode_loop-Shortest :
    (fuel : ℕ) (bytes : List ℕ) → length bytes ≤ fuel → Shortest (encode_loop fuel bytes)
unfolding encode_loop
encode_loop-Shortest fuel [] h = tt
encode_loop-Shortest zero (byte ∷ rest) h = absurd (omega arith)
encode_loop-Shortest (suc fuel) (byte ∷ rest) h =
    let found = extend_run byte rest 1 in
    let r : IsRun byte 1 rest found = extend_run-IsRun byte 1 rest (omega arith) in
    let size : length rest ≡ r.more + length found.1 =
      ap length r.split
      ∙ length-append (replicate r.more byte) found.1
      ∙ ap (λ t. t + length found.1) (length-replicate r.more byte) in
    let same : found.0 % 256 ≡ found.0 = omega (arith, r.within) in
    rw same (
      cons-Shortest fuel found.0 byte found.1 (omega (arith, r.counted)) r.within r.stops
        (omega arith) (encode_loop-Shortest fuel found.1 (omega arith)))

-- `encode_rle` writes complete pairs with counts from 1 to 255, and starts a second pair for the same
-- byte only behind a full one.
pub encode_rle-Shortest : (bytes : List ℕ) → Shortest (encode_rle bytes)
unfolding encode_rle
encode_rle-Shortest bytes = encode_loop-Shortest (length bytes) bytes (omega arith)
