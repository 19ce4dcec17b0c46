-- ===== src/Primitives/Bitmap/Bits.antt =====
-- Single bits of a byte string.
use compact_core.Common.{
  ℕ, zero, suc, ◌/◌, ◌%◌, ◌^◌, ◌≤◌, ◌<◌, ◌≡◌, ◌≢◌, refl, ap, sym, ◌∙◌, arith, bit_and, bit_or, List,
  [], ◌∷◌, Bool, true, false, not, ◌||◌, ◌&&◌, ◌==◌, ltb, if◌then◌else◌, length, get_or, set, All,
  IsByte, ℕ_discrete, ==_iff,
}
use compact_core.Common.Masks.{holds_below, below, holds}
use compact_core.Primitives.Bitmap.{set_bit, test_bit, padding_mask}

get_or-set_same : (xs : List ℕ) (i v : ℕ) → i < length xs → get_or (set xs i v) i 0 ≡ v
get_or-set_same [] i v h = absurd (omega arith)
get_or-set_same (x ∷ xs) zero v h = refl
get_or-set_same (x ∷ xs) (suc i) v h = get_or-set_same xs i v (omega arith)

get_or-set_other : (xs : List ℕ) (i j v : ℕ) → i ≢ j → get_or (set xs i v) j 0 ≡ get_or xs j 0
get_or-set_other [] i j v h = refl
get_or-set_other (x ∷ xs) zero zero v h = absurd (h refl)
get_or-set_other (x ∷ xs) zero (suc j) v h = refl
get_or-set_other (x ∷ xs) (suc i) zero v h = refl
get_or-set_other (x ∷ xs) (suc i) (suc j) v h = get_or-set_other xs i j v (λ e. h (ap suc e))

pub get_or-IsByte : (xs : List ℕ) (i : ℕ) → All IsByte xs → IsByte (get_or xs i 0)
get_or-IsByte [] i h = omega arith
get_or-IsByte (x ∷ xs) zero h = h.0
get_or-IsByte (x ∷ xs) (suc i) h = get_or-IsByte xs i h.1

set-IsByte : (xs : List ℕ) (i v : ℕ) → IsByte v → All IsByte xs → All IsByte (set xs i v)
set-IsByte [] i v w h = tt
set-IsByte (x ∷ xs) zero v w h = (w, h.1)
set-IsByte (x ∷ xs) (suc i) v w h = (h.0, set-IsByte xs i v w h.1)

-- In one byte: after bit `k` is set, the test of bit `j` sees it and every bit before.
abbrev bit_test : ℕ → ℕ → Bool
bit_test b j = not (bit_and b (2 ^ j) == 0)

abbrev same_bool : Bool → Bool → Bool
same_bool true b = b
same_bool false b = not b

abbrev set_sees : ℕ → ℕ → ℕ → Bool
set_sees b k j =
    ((bit_or b (2 ^ k) == bit_or b (2 ^ k) % 256)
      && same_bool (bit_test (bit_or b (2 ^ k)) j) (if j == k then true else bit_test b j))

same_bool→eq : (a b : Bool) → same_bool a b ≡ true → a ≡ b
same_bool→eq true true h = refl
same_bool→eq true false h = cc
same_bool→eq false true h = cc
same_bool→eq false false h = refl

sees_table : holds_below 256 (λ b. holds_below 8 (λ k. holds_below 8 (set_sees b k))) ≡ true
unfolding holds_below
sees_table = refl

sees : (b k j : ℕ) → b < 256 → k < 8 → j < 8 → set_sees b k j ≡ true
sees b k j hb hk hj =
    below 8 (set_sees b k) j
      (below 8 (λ x. holds_below 8 (set_sees b x)) k
        (below 256 (λ y. holds_below 8 (λ x. holds_below 8 (set_sees y x))) b sees_table hb) hk)
      hj

and_parts : (a b : Bool) → (a && b) ≡ true → (a ≡ true) × (b ≡ true)
and_parts true true h = (refl, refl)
and_parts true false h = cc
and_parts false b h = cc

module _ (out : List ℕ) (i : ℕ) (bytes : All IsByte out) (inside : i / 8 < length out) where
  byte_sees : (j : ℕ) → j < 8 → set_sees (get_or out (i / 8) 0) (i % 8) j ≡ true
  byte_sees j h =
      sees (get_or out (i / 8) 0) (i % 8) j (get_or-IsByte out (i / 8) bytes) (omega arith) h

  bit_seen :
      (j : ℕ)
      → j < 8
      → bit_test (bit_or (get_or out (i / 8) 0) (2 ^ (i % 8))) j
        ≡ (if j == i % 8 then true else bit_test (get_or out (i / 8) 0) j)
  bit_seen j h = same_bool→eq _ _ (and_parts _ _ (byte_sees j h)).1

  pub set_bit-IsByte : All IsByte (set_bit out i)
  set_bit-IsByte =
      let b = bit_or (get_or out (i / 8) 0) (2 ^ (i % 8)) in
      let small : b ≡ b % 256 =
        (==_iff b (b % 256)).0 (and_parts _ _ (byte_sees 0 (omega arith))).0 in
      set-IsByte out (i / 8) b (omega arith) bytes

  pub test_bit-set_bit_same : test_bit (set_bit out i) i ≡ true
  test_bit-set_bit_same =
      rw (get_or-set_same out (i / 8) (bit_or (get_or out (i / 8) 0) (2 ^ (i % 8))) inside)
        (bit_seen (i % 8) (omega arith) ∙ ground arith)

  pub test_bit-set_bit_other : (j : ℕ) → i ≢ j → test_bit (set_bit out i) j ≡ test_bit out j
  test_bit-set_bit_other j other =
      let b = bit_or (get_or out (i / 8) 0) (2 ^ (i % 8)) in
      elim (ℕ_discrete (i / 8) (j / 8)) [
        | yes same ↦
            let apart : (j % 8 == i % 8) ≡ false = ground arith in
            rw (sym same, get_or-set_same out (i / 8) b inside)
              (bit_seen (j % 8) (omega arith) ∙ rw (apart) refl)
        | no away ↦ rw (get_or-set_other out (i / 8) (j / 8) b away) refl
      ]

-- A byte without bits from `used` on has none under the padding mask.
abbrev clear_from : ℕ → ℕ → ℕ → Bool
clear_from b used k = ltb k used || not (bit_test b k)

abbrev padding_clear : ℕ → ℕ → Bool
padding_clear b used =
    not (holds_below 8 (clear_from b used)) || (bit_and b (padding_mask used) == 0)

padding_table : holds_below 256 (λ b. holds_below 8 (padding_clear b)) ≡ true
unfolding holds_below
padding_table = refl

pub padding-clear :
    (b used : ℕ)
    → b < 256
    → used < 8
    → ((k : ℕ) → k < 8 → used ≤ k → bit_test b k ≡ false)
    → (bit_and b (padding_mask used) == 0) ≡ true
padding-clear b used hb hu clear =
    let all : holds_below 8 (clear_from b used) ≡ true =
      holds 8 (clear_from b used) (λ k hk. ground (arith, clear k hk)) in
    let row =
      below 8 (padding_clear b) used
        (below 256 (λ x. holds_below 8 (padding_clear x)) b padding_table hb) hu in
    rw (all) at row

pub bit_and-zero : (k : ℕ) → k < 8 → bit_and 0 (2 ^ k) ≡ 0
unfolding holds_below
bit_and-zero k h = (==_iff (bit_and 0 (2 ^ k)) 0).0 (below 8 (λ x. bit_and 0 (2 ^ x) == 0) k refl h)
