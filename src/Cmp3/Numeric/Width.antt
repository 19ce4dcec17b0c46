-- ===== src/Cmp3/Numeric/Width.antt =====
-- The width that a column's values need.
use compact_core.Common.{
  ℕ, zero, suc, ◌/◌, ◌^◌, ◌≤◌, ◌<◌, ◌≡◌, arith, List, [], ◌∷◌, true, false, Option, none, some,
  ◌==◌, ==_iff, ℕ_discrete, All, IsU64,
}
use native.Mathlib.Nat.{pow-zero, pow-suc}
use compact_core.Primitives.Bitpack.RoundTrip.{InWidth}
use compact_core.Cmp3.Numeric.{halvings, required_width, max_of, greater, or_zero}

halvings-bound :
    (bits value : ℕ)
    → value < 2 ^ bits
    → (value < 2 ^ halvings bits value) × (halvings bits value ≤ bits)
unfolding halvings
halvings-bound zero value h = (h, omega arith)
halvings-bound (suc bits) value h =
    let (small, few) = halvings-bound bits (value / 2) (omega (arith, pow-suc 2 bits)) in
    elim (ℕ_discrete value 0) [
      | yes zeroed ↦
          let test : (value == 0) ≡ true = (==_iff value 0).1 zeroed in
          rw (test) (omega (arith, zeroed, pow-zero 2), omega arith)
      | no more ↦
          let test : (value == 0) ≡ false = ground arith in
          rw (test) (omega (arith, small, pow-suc 2 (halvings bits (value / 2))), omega arith)
    ]

weaken :
    (a b : ℕ) (values : List ℕ)
    → a ≤ b
    → All (λ value. value ≤ a) values
    → All (λ value. value ≤ b) values
weaken a b [] le h = tt
weaken a b (value ∷ values) le (first, others) = (omega arith, weaken a b values le others)

greater-bound :
    (value : ℕ) (found : Option ℕ)
    → (value ≤ greater value found) × (or_zero found ≤ greater value found)
greater-bound value none = (omega arith, omega arith)
greater-bound value (some greatest) = ground arith

max_of-bound : (values : List ℕ) → All (λ value. value ≤ or_zero (max_of values)) values
unfolding max_of
max_of-bound [] = tt
max_of-bound (value ∷ values) =
    let (first, others) = greater-bound value (max_of values) in
    (
      first,
      weaken (or_zero (max_of values)) (greater value (max_of values)) values others
          (max_of-bound values),
    )

max_of-IsU64 : (values : List ℕ) → All IsU64 values → IsU64 (or_zero (max_of values))
unfolding max_of
max_of-IsU64 [] h = omega arith
max_of-IsU64 (value ∷ values) (first, others) =
    greater-IsU64 value (max_of values) first (max_of-IsU64 values others)
  where
    greater-IsU64 :
        (v : ℕ) (found : Option ℕ) → IsU64 v → IsU64 (or_zero found) → IsU64 (greater v found)
    greater-IsU64 v none h k = h
    greater-IsU64 v (some greatest) h k = ground arith

below_bound :
    (a b : ℕ) (values : List ℕ)
    → a < b
    → All (λ value. value ≤ a) values
    → All (λ value. value < b) values
below_bound a b [] lt h = tt
below_bound a b (value ∷ values) lt (first, others) =
    (omega arith, below_bound a b values lt others)

-- u64 values fit in the width that the largest of them requires.
pub required_width-InWidth :
    (values : List ℕ) → All IsU64 values → InWidth (required_width (or_zero (max_of values))) values
required_width-InWidth values words =
    let (small, few) = halvings-bound 64 (or_zero (max_of values)) (max_of-IsU64 values words) in
    (
      few,
      below_bound (or_zero (max_of values)) (2 ^ required_width (or_zero (max_of values))) values
          small (max_of-bound values),
    )
