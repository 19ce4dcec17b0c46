-- ===== src/Primitives/Bitpack/Unpack.antt =====
-- What the reading loops of bitpack.rs take out of a byte string, as the number of its bytes.
use compact_core.Common.{
  ℕ, zero, suc, ◌+◌, ◌*◌, ◌/◌, ◌%◌, ◌^◌, ◌≤◌, ◌<◌, ◌≡◌, refl, ap, ap₂, sym, ◌∙◌, arith, bit_or,
  List, [], ◌∷◌, length, get_or, All, IsByte, from_le_bytes,
}
use native.Mathlib.Nat.{
  pow-zero, zero-div, pow-suc, one-le-pow, pow-le-pow_right, div-div-eq-div-mul, mul_comm,
  mod-eq_of_lt, div-eq_of_lt, add-mul-mod_self_left, add-mul, add-mul-div_left,
}
use compact_core.Common.Bits.{bit_or_disjoint, bit_and-one}
use compact_core.Common.Powers.{two-pow-byte, mod-pow_zero, mod-pow_suc, bit-mod_pow, div-pow_add}
use compact_core.Primitives.Bitpack.{source_bit, read_value, read_values}
use compact_core.Primitives.Bitpack.Pack.{number_of, pow-next, bit_below, shuffle}

-- A byte of the string is a digit of its number.
pub byte_at :
    (bytes : List ℕ) (i : ℕ)
    → All IsByte bytes
    → get_or bytes i 0 ≡ from_le_bytes bytes / 256 ^ i % 256
unfolding from_le_bytes
byte_at [] i h = omega (arith, zero-div (256 ^ i))
byte_at (b ∷ bytes) zero h = rw (pow-zero 256) (omega (arith, h.0))
byte_at (b ∷ bytes) (suc i) h =
    byte_at bytes i h.1
    ∙ ap (λ (t : ℕ). t % 256)
        (ap (λ (t : ℕ). t / 256 ^ i) (omega (arith, h.0))
          ∙ div-div-eq-div-mul (b + 256 * from_le_bytes bytes) 256 (256 ^ i)
          ∙ ap (λ (t : ℕ). (b + 256 * from_le_bytes bytes) / t)
              (sym (pow-suc 256 i ∙ mul_comm (256 ^ i) 256)))

pub source_bit-number :
    (bytes : List ℕ) (o : ℕ)
    → All IsByte bytes
    → source_bit bytes o ≡ from_le_bytes bytes / 2 ^ o % 2
source_bit-number bytes o h =
    let F = from_le_bytes bytes in
    let place : 2 ^ (8 * (o / 8)) ≡ 256 ^ (o / 8) = two-pow-byte (o / 8) in
    bit_and-one (get_or bytes (o / 8) 0 / 2 ^ (o % 8))
    ∙ rw (byte_at bytes (o / 8) h) (bit-mod_pow 8 (o % 8) (F / 256 ^ (o / 8)) (omega arith))
    ∙ ap (λ (t : ℕ). F / t / 2 ^ (o % 8) % 2) (sym place)
    ∙ ap (λ (t : ℕ). t % 2) (sym (div-pow_add F (8 * (o / 8)) (o % 8)))
    ∙ ap (λ (t : ℕ). F / 2 ^ t % 2) (omega arith)

bit_kept : (T b : ℕ) → b < 2 → T ≤ 2 ^ 63 → b * T % 2 ^ 64 ≡ b * T
bit_kept T zero h le = omega arith
bit_kept T (suc zero) h le = omega arith
bit_kept T (suc (suc b)) h le = absurd (omega arith)

-- The inner loop adds the bits at their places.
pub read_value-number :
    (bytes : List ℕ) (count i o value : ℕ)
    → All IsByte bytes
    → value < 2 ^ i
    → i + count ≤ 64
    → read_value bytes count i o value ≡ value + from_le_bytes bytes / 2 ^ o % 2 ^ count * 2 ^ i
unfolding read_value
read_value-number bytes zero i o value h small room =
    omega (arith, ap (λ (t : ℕ). t * 2 ^ i) (mod-pow_zero (from_le_bytes bytes / 2 ^ o)))
read_value-number bytes (suc count) i o value h small room =
    let x = from_le_bytes bytes / 2 ^ o in
    let b = source_bit bytes o in
    let bit : b ≡ x % 2 = source_bit-number bytes o h in
    let T = 2 ^ i in
    let rest = x / 2 % 2 ^ count in
    let wide : T ≤ 2 ^ 63 = pow-le-pow_right {n = 2} (omega arith) {i = i} {j = 63} (omega arith) in
    let kept : b * T % 2 ^ 64 ≡ b * T = bit_kept T b (omega arith) wide in
    let sum : bit_or value (b * T % 2 ^ 64) ≡ value + b * T =
      ap (bit_or value) kept ∙ bit_or_disjoint i value b small in
    let value' = bit_or value (b * T % 2 ^ 64) in
    let small' : value' < 2 ^ (i + 1) =
      omega (arith, pow-next i, sum, bit_below T value b (omega arith) small) in
    let next : from_le_bytes bytes / 2 ^ (o + 1) % 2 ^ count ≡ rest =
      ap (λ (y : ℕ). from_le_bytes bytes / y % 2 ^ count) (pow-next o)
      ∙ ap (λ (y : ℕ). y % 2 ^ count) (sym (div-div-eq-div-mul (from_le_bytes bytes) (2 ^ o) 2)) in
    read_value-number bytes count (i + 1) (o + 1) value' h small' (omega arith)
    ∙ rw (next, pow-next i, sum)
        (omega (
          arith,
          ap (λ (t : ℕ). t * T) bit,
          ap (λ (t : ℕ). t * T) (mod-pow_suc x count),
          add-mul (x % 2) (2 * rest) T,
          shuffle rest T,
        ))

pub read_values-number :
    (bytes : List ℕ) (bit_width : ℕ) (values : List ℕ) (o : ℕ)
    → All IsByte bytes
    → bit_width ≤ 64
    → All (λ value. value < 2 ^ bit_width) values
    → from_le_bytes bytes / 2 ^ o ≡ number_of bit_width values
    → read_values bytes bit_width (length values) o ≡ values
unfolding read_values number_of
read_values-number bytes w [] o h le small e = refl
read_values-number bytes w (value ∷ values) o h le (small, others) e =
    let pos : 0 < 2 ^ w = one-le-pow w 2 (omega arith) in
    let rest = number_of w values in
    let this : from_le_bytes bytes / 2 ^ o % 2 ^ w ≡ value =
      ap (λ (t : ℕ). t % 2 ^ w) e ∙ add-mul-mod_self_left value (2 ^ w) rest ∙ mod-eq_of_lt small in
    let next : from_le_bytes bytes / 2 ^ (o + w) ≡ rest =
      div-pow_add (from_le_bytes bytes) o w
      ∙ ap (λ (t : ℕ). t / 2 ^ w) e
      ∙ add-mul-div_left value rest pos
      ∙ omega (arith, div-eq_of_lt small) in
    ap₂ ◌∷◌
      (read_value-number bytes w 0 o 0 h (one-le-pow 0 2 (omega arith)) (omega arith)
        ∙ omega
            (arith, this, ap (λ (t : ℕ). (from_le_bytes bytes / 2 ^ o % 2 ^ w) * t) (pow-zero 2)))
      (read_values-number bytes w values (o + w) h le others next)
