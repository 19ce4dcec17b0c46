-- ===== src/Primitives/Bitpack/Pack.antt =====
-- The number that the packing loops of bitpack.rs build, lowest byte first.
use compact_core.Common.{
  ℕ, zero, suc, ◌+◌, ◌*◌, ◌/◌, ◌%◌, ◌^◌, ◌≤◌, ◌<◌, ◌≡◌, ap, sym, ◌∙◌, arith, bit_and, bit_or, List,
  [], ◌∷◌, ◌++◌, length, length-append, All, All-append, IsByte, from_le_bytes, ℕ_discrete, true,
  false, ◌==◌, ltb, ==_iff,
}
use native.Mathlib.Nat.{
  pow-zero, pow-suc, pow-le-pow_right, mul-add, add-mul, div-div-eq-div-mul, mod-eq_of_lt,
}
use compact_core.Common.Bits.{bit_or_disjoint, bit_and-one}
use compact_core.Common.Powers.{
  pow-add, two-pow-byte, mod-pow_zero, mod-pow_suc, from_le_bytes-append,
}
use compact_core.Primitives.Bitmap.{byte_count}
use compact_core.Primitives.Bitpack.{Packed, push_bit, push_value, push_values, flush}

-- What has been written so far, as a number and as a count of bits.
abbrev pub number : Packed → ℕ
number s = from_le_bytes s.out + 256 ^ length s.out * s.current_byte

abbrev pub place : Packed → ℕ
place s = 8 * length s.out + s.bits_in_current_byte

abbrev pub Fits : Packed → Type 0
Fits s =
    All IsByte s.out × (s.current_byte < 2 ^ s.bits_in_current_byte) × (s.bits_in_current_byte < 8)

-- The values as the digits of one number.
unfoldable pub number_of : ℕ → List ℕ → ℕ
number_of bit_width [] = 0
number_of bit_width (value ∷ values) = value + 2 ^ bit_width * number_of bit_width values

power_byte : (k : ℕ) → k < 8 → 2 ^ k ≤ 128
power_byte k h = pow-le-pow_right {n = 2} (omega arith) {i = k} {j = 7} (omega arith)

shift_lem : (s : Packed) → 2 ^ place s ≡ 256 ^ length s.out * 2 ^ s.bits_in_current_byte
shift_lem s =
    pow-add 2 (8 * length s.out) s.bits_in_current_byte
    ∙ ap (λ (t : ℕ). t * 2 ^ s.bits_in_current_byte) (two-pow-byte (length s.out))

-- A state that holds `added` more bits than `s`, of the number `more`.
abbrev Grown : Packed → ℕ → ℕ → Packed → Type 0
Grown s added more t =
    Fits t × ((number t ≡ number s + more * 2 ^ place s) × (place t ≡ place s + added))

-- The arithmetic of one bit `b` of the byte in hand, at place `T` of that byte.
bit_sum : (L T c b : ℕ) → b < 2 → L * (c + b * T) ≡ L * c + b * (L * T)
bit_sum L T c zero h = omega (arith, mul-add L c 0)
bit_sum L T c (suc zero) h = omega (arith, mul-add L c T)
bit_sum L T c (suc (suc b)) h = absurd (omega arith)

pub bit_below : (T c b : ℕ) → b < 2 → c < T → c + b * T < T * 2
bit_below T c zero h lt = omega arith
bit_below T c (suc zero) h lt = omega arith
bit_below T c (suc (suc b)) h lt = absurd (omega arith)

bit_byte : (T b : ℕ) → b < 2 → T ≤ 128 → b * T % 256 ≡ b * T
bit_byte T zero h le = omega arith
bit_byte T (suc zero) h le = omega arith
bit_byte T (suc (suc b)) h le = absurd (omega arith)

one_more :
    (out : List ℕ) (c : ℕ)
    → from_le_bytes (out ++ c ∷ []) ≡ from_le_bytes out + 256 ^ length out * c
unfolding from_le_bytes
one_more out c = from_le_bytes-append out (c ∷ []) ∙ omega arith

pub pow-next : (k : ℕ) → 2 ^ (k + 1) ≡ 2 ^ k * 2
pow-next k = ap (λ (t : ℕ). 2 ^ t) (add-one k) ∙ pow-suc 2 k
  where
    add-one : (n : ℕ) → n + 1 ≡ suc n
    add-one n = omega arith

push_bit-Grown : (b : ℕ) (s : Packed) → b < 2 → Fits s → Grown s 1 b (push_bit b s)
push_bit-Grown b s hb (bytes, small, room) =
    let k = s.bits_in_current_byte in
    let T = 2 ^ k in
    let L = 256 ^ length s.out in
    let low : T ≤ 128 = power_byte k room in
    let sum : bit_or s.current_byte (b * T % 256) ≡ s.current_byte + b * T =
      ap (bit_or s.current_byte) (bit_byte T b hb low) ∙ bit_or_disjoint k s.current_byte b small in
    let grown : L * (s.current_byte + b * T) ≡ L * s.current_byte + b * 2 ^ place s =
      bit_sum L T s.current_byte b hb
      ∙ ap (λ (t : ℕ). L * s.current_byte + b * t) (sym (shift_lem s)) in
    let fits = bit_below T s.current_byte b hb small in
    elim (ℕ_discrete (k + 1) 8) [
      | yes full ↦
          let test : (k + 1 == 8) ≡ true = (==_iff (k + 1) 8).1 full in
          rw (sum, test)
            (
              (All-append IsByte s.out _ bytes (omega arith, tt), omega arith, omega arith),
              (
                omega (arith, one_more s.out (s.current_byte + b * T), grown),
                omega (arith, length-append s.out ((s.current_byte + b * T) ∷ [])),
              ),
            )
      | no part ↦
          let test : (k + 1 == 8) ≡ false = ground arith in
          rw (sum, test)
            ((bytes, omega (arith, pow-next k), omega arith), (omega (arith, grown), omega arith))
    ]

pub shuffle : (r p : ℕ) → r * (p * 2) ≡ 2 * r * p
shuffle r p = grind arith

swap : (n p w : ℕ) → n * (p * w) ≡ w * n * p
swap n p w = grind arith

push_value-Grown :
    (count bit_index value : ℕ) (s : Packed)
    → Fits s
    → Grown s count (value / 2 ^ bit_index % 2 ^ count) (push_value count bit_index value s)
unfolding push_value
push_value-Grown zero i value s fits = (
  fits,
  (omega (arith, ap (λ (t : ℕ). t * 2 ^ place s) (mod-pow_zero (value / 2 ^ i))), omega arith),
)
push_value-Grown (suc count) i value s fits =
    let x = value / 2 ^ i in
    let b = bit_and x 1 in
    let low : b ≡ x % 2 = bit_and-one x in
    let t = push_bit b s in
    let (fits', (at, far)) = push_bit-Grown b s (omega arith) fits in
    let (fits'', (at', far')) = push_value-Grown count (i + 1) value t fits' in
    let rest = x / 2 % 2 ^ count in
    let next : value / 2 ^ (i + 1) % 2 ^ count ≡ rest =
      ap (λ (y : ℕ). value / y % 2 ^ count) (pow-next i)
      ∙ ap (λ (y : ℕ). y % 2 ^ count) (sym (div-div-eq-div-mul value (2 ^ i) 2)) in
    let power : 2 ^ place t ≡ 2 ^ place s * 2 = ap (λ (y : ℕ). 2 ^ y) far ∙ pow-next (place s) in
    (
      fits'',
      (
        at'
            ∙ rw (next, power, at, low)
                (omega (
                  arith,
                  ap (λ (t : ℕ). t * 2 ^ place s) (mod-pow_suc x count),
                  add-mul (x % 2) (2 * rest) (2 ^ place s),
                  shuffle rest (2 ^ place s),
                )),
        omega (arith, far, far'),
      ),
    )

pub push_values-Grown :
    (bit_width : ℕ) (values : List ℕ) (s : Packed)
    → All (λ value. value < 2 ^ bit_width) values
    → Fits s
    → Grown s
        (length values * bit_width)
        (number_of bit_width values)
        (push_values bit_width values s)
unfolding push_values number_of
push_values-Grown w [] s small fits = (fits, (omega arith, omega arith))
push_values-Grown w (value ∷ values) s (small, others) fits =
    let t = push_value w 0 value s in
    let (fits', (at, far)) = push_value-Grown w 0 value s fits in
    let (fits'', (at', far')) = push_values-Grown w values t others fits' in
    let whole : value / 2 ^ 0 % 2 ^ w ≡ value =
      ap (λ (y : ℕ). y % 2 ^ w) (ap (λ (y : ℕ). value / y) (pow-zero 2) ∙ omega arith)
      ∙ mod-eq_of_lt small in
    let power : 2 ^ place t ≡ 2 ^ place s * 2 ^ w =
      ap (λ (y : ℕ). 2 ^ y) far ∙ pow-add 2 (place s) w in
    (
      fits'',
      (
        at'
            ∙ rw (power, at, whole)
                (omega (
                  arith,
                  add-mul value (2 ^ w * number_of w values) (2 ^ place s),
                  swap (number_of w values) (2 ^ place s) (2 ^ w),
                )),
        omega (arith, far, far'),
      ),
    )

-- The bytes behind the loops.
pub flush-number :
    (s : Packed)
    → Fits s
    → All IsByte (flush s)
      × (from_le_bytes (flush s) ≡ number s)
      × (length (flush s) ≡ byte_count (place s))
flush-number s (bytes, small, room) = elim (ℕ_discrete s.bits_in_current_byte 0) [
  | yes whole ↦
      let none : s.current_byte ≡ 0 = omega (arith, ap (λ (y : ℕ). 2 ^ y) whole, pow-zero 2) in
      let test : ltb 0 s.bits_in_current_byte ≡ false = ground arith in
      rw (test) (bytes, omega (arith, ap (λ (y : ℕ). 256 ^ length s.out * y) none), omega arith)
  | no part ↦
      let test : ltb 0 s.bits_in_current_byte ≡ true = ground arith in
      let low = power_byte s.bits_in_current_byte room in
      rw (test) (
        All-append IsByte s.out _ bytes (omega arith, tt),
        one_more s.out s.current_byte,
        omega (arith, length-append s.out (s.current_byte ∷ [])),
      )
]
