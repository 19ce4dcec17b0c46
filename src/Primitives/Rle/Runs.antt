-- ===== src/Primitives/Rle/Runs.antt =====
-- One run, and what a list of pairs stands for.
use compact_core.Common.{
  ℕ, suc, ◌+◌, ◌*◌, ◌≤◌, ◌<◌, ◌≡◌, refl, ap, ap₂, ◌∙◌, arith, List, [], ◌∷◌, ◌++◌, replicate,
  length, length-append, length-replicate, Bool-cases, inl, inr, ltb, ◌==◌, ◌&&◌,
}
use compact_core.Primitives.Rle.{extend_run}

-- What stands behind a run of `count` bytes does not go on with it, unless the count is full.
abbrev pub Stops : ℕ → ℕ → List ℕ → Type 0
Stops byte count [] = Unit
Stops byte count (next ∷ rest) = next ≡ byte → count ≡ 255

-- `found` is the run of `byte` that goes on from `count` into `bytes`.
pub record IsRun (byte count : ℕ) (bytes : List ℕ) (found : ℕ × List ℕ) : Type 0 where
  pub more : ℕ
  pub counted : found.0 ≡ count + more
  pub split : bytes ≡ replicate more byte ++ found.1
  pub within : found.0 ≤ 255
  pub stops : Stops byte found.0 found.1

pub extend_run-IsRun :
    (byte count : ℕ) (bytes : List ℕ)
    → count ≤ 255
    → IsRun byte count bytes (extend_run byte bytes count)
unfolding extend_run
extend_run-IsRun byte count [] h = record {
  more = 0;
  counted = omega arith;
  split = refl;
  within = h;
  stops = tt;
}
extend_run-IsRun byte count (next ∷ rest) h = elim (Bool-cases (next == byte && ltb count 255)) [
  | inl again ↦
      let r = extend_run-IsRun byte (count + 1) rest (ground arith) in
      rw again (record {
        more = suc r.more;
        counted = omega (arith, r.counted);
        split = ap₂ ◌∷◌ (ground arith) r.split;
        within = r.within;
        stops = r.stops;
      })
  | inr over ↦ rw over (record {
    more = 0;
    counted = omega arith;
    split = refl;
    within = h;
    stops = λ e. ground arith;
  })
]

-- `Runs pairs out`: `pairs` is a sequence of `[count][byte]` pairs, no count zero, that stands for
-- `out`.
pub data Runs : List ℕ → List ℕ → Type 0 where
  done : Runs [] []
  run :
      (count value : ℕ) (pairs out whole : List ℕ)
      → 0 < count
      → Runs pairs out
      → whole ≡ replicate count value ++ out
      → Runs (count ∷ value ∷ pairs) whole

pub length-run :
    (count value : ℕ) (out whole : List ℕ)
    → whole ≡ replicate count value ++ out
    → length whole ≡ count + length out
length-run count value out whole e =
    ap length e
    ∙ length-append (replicate count value) out
    ∙ omega (arith, length-replicate count value)

-- A written run is shortest: of each two neighbours with the same byte the first is full.
abbrev pub Shortest : List ℕ → Type 0
Shortest [] = Unit
Shortest (odd ∷ []) = ⊥
Shortest (count ∷ value ∷ []) = (1 ≤ count) × (count ≤ 255)
Shortest (count ∷ value ∷ odd ∷ []) = ⊥
Shortest (count ∷ value ∷ count' ∷ value' ∷ pairs) =
    (1 ≤ count)
    × (count ≤ 255)
    × (value' ≡ value → count ≡ 255)
    × Shortest (count' ∷ value' ∷ pairs)

pub Runs-length : {pairs out : List ℕ} → Runs pairs out → length pairs ≤ 2 * length out
Runs-length done = omega arith
Runs-length (run count value pairs out whole pos rest e) =
    omega (arith, Runs-length rest, length-run count value out whole e)
