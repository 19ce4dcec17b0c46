-- ===== src/Common/Powers.antt =====
-- Powers of two, as positions of bits.
use Prim.Native.Nat.{ℕ, zero, suc, ◌+◌, ◌*◌, ◌/◌, ◌%◌, ◌^◌, ◌≤◌, ◌<◌}
use mathlib.Core.Path.{◌≡◌, refl, sym, ap, ◌∙◌}
use mathlib.Core.List.{List, [], ◌∷◌, ◌++◌}
use native.Mathlib.Omega.{arith}
use native.Mathlib.Nat.{
  pow-zero, pow-suc, one-le-pow, div-add-mod, div-div-eq-div-mul, add-mul-mod_self_left,
  mod-eq_of_lt, mod-lt, mul_assoc, mul_comm, mul-one,
}
use native.Mathlib.Numerals.{unary_clauses}
use compact_core.Common.Lists.{length}
use compact_core.Common.Words.{from_le_bytes}

pub pow-add : (b m n : ℕ) → b ^ (m + n) ≡ b ^ m * b ^ n
pow-add b m zero = simp unary_clauses (sym (mul-one (b ^ m)))
pow-add b m (suc n) =
    ap (λ (t : ℕ). b ^ t) (add-suc_lem m n)
    ∙ pow-suc b (m + n)
    ∙ ap (λ (t : ℕ). t * b) (pow-add b m n)
    ∙ mul_assoc (b ^ m) (b ^ n) b
    ∙ ap (λ (t : ℕ). b ^ m * t) (sym (pow-suc b n))
  where
    add-suc_lem : (j k : ℕ) → j + suc k ≡ suc (j + k)
    add-suc_lem j k = omega arith

pub two-pow-byte : (n : ℕ) → 2 ^ (8 * n) ≡ 256 ^ n
two-pow-byte zero = refl
two-pow-byte (suc n) =
    ap (λ (t : ℕ). 2 ^ t) (omega arith)
    ∙ pow-add 2 (8 * n) 8
    ∙ omega (arith, two-pow-byte n, pow-suc 256 n)

pub mod-pow_zero : (x : ℕ) → x % 2 ^ 0 ≡ 0
mod-pow_zero x = ap (λ (t : ℕ). x % t) (pow-zero 2) ∙ omega arith

-- The lowest bit of a field of bits, and the others.
pub mod-pow_suc : (x n : ℕ) → x % 2 ^ suc n ≡ x % 2 + 2 * (x / 2 % 2 ^ n)
mod-pow_suc x n =
    let m = 2 ^ n in
    let pos : 1 ≤ m = one-le-pow n 2 (omega arith) in
    let q = x / 2 / m in
    let r = x / 2 % m in
    let half : m * q + r ≡ x / 2 = div-add-mod (x / 2) m in
    let double : 2 ^ suc n ≡ 2 * m = omega (arith, pow-suc 2 n) in
    let small : r < m = mod-lt (x / 2) pos in
    let whole : x ≡ x % 2 + 2 * r + 2 * m * q = omega (arith, mul_assoc 2 m q) in
    ap (λ (t : ℕ). x % t) double
    ∙ ap (λ (t : ℕ). t % (2 * m)) whole
    ∙ add-mul-mod_self_left (x % 2 + 2 * r) (2 * m) q
    ∙ mod-eq_of_lt (omega arith)

-- A bit of the low bits of a number.
pub bit-mod_pow : (n r x : ℕ) → r < n → x % 2 ^ n / 2 ^ r % 2 ≡ x / 2 ^ r % 2
bit-mod_pow zero r x h = absurd (omega arith)
bit-mod_pow (suc n) zero x h =
    let all : (t : ℕ) → t / 2 ^ 0 ≡ t = λ t. ap (λ (y : ℕ). t / y) (pow-zero 2) ∙ omega arith in
    rw (all (x % 2 ^ suc n), all x, mod-pow_suc x n) (omega arith)
bit-mod_pow (suc n) (suc r) x h =
    let split : (t : ℕ) → t / 2 ^ suc r ≡ t / 2 / 2 ^ r = λ t.
      ap (λ (y : ℕ). t / y) (pow-suc 2 r ∙ mul_comm (2 ^ r) 2)
      ∙ sym (div-div-eq-div-mul t 2 (2 ^ r)) in
    let half : x % 2 ^ suc n / 2 ≡ x / 2 % 2 ^ n = omega (arith, mod-pow_suc x n) in
    rw (split (x % 2 ^ suc n), split x, half) (bit-mod_pow n r (x / 2) (omega arith))

pub div-pow_suc : (x n : ℕ) → x / 2 ^ suc n ≡ x / 2 ^ n / 2
div-pow_suc x n = ap (λ (t : ℕ). x / t) (pow-suc 2 n) ∙ sym (div-div-eq-div-mul x (2 ^ n) 2)

pub div-pow_add : (x m n : ℕ) → x / 2 ^ (m + n) ≡ x / 2 ^ m / 2 ^ n
div-pow_add x m n =
    ap (λ (t : ℕ). x / t) (pow-add 2 m n) ∙ sym (div-div-eq-div-mul x (2 ^ m) (2 ^ n))

pub from_le_bytes-append :
    (xs ys : List ℕ)
    → from_le_bytes (xs ++ ys) ≡ from_le_bytes xs + 256 ^ length xs * from_le_bytes ys
unfolding from_le_bytes
from_le_bytes-append [] ys = omega arith
from_le_bytes-append (x ∷ xs) ys = omega (
  arith,
  from_le_bytes-append xs ys,
  ap (λ (t : ℕ). t * from_le_bytes ys) (pow-suc 256 (length xs)),
  mul_assoc (256 ^ length xs) 256 (from_le_bytes ys),
)
