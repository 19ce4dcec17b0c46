-- ===== src/Primitives/Bitpack/RoundTrip.antt =====
-- `decode_u64` on what `encode_u64` writes.
use compact_core.Common.{
  ℕ, suc, ◌+◌, ◌-◌, ◌*◌, ◌/◌, ◌%◌, ◌^◌, ◌≤◌, ◌<◌, ◌≡◌, refl, ap, ap₂, sym, ◌∙◌, arith, bit_and,
  List, [], ◌∷◌, true, false, not, ◌||◌, ◌==◌, ltb, length, replicate, All, IsByte, from_le_bytes,
  ok, ◌>>=◌, ==_iff, ℕ_discrete,
}
use native.Mathlib.Nat.{pow-zero, mul-le-mul_left, one-le-pow, mul-add, div-lt_iff_lt-mul}
use compact_core.Common.Masks.{holds_below, below}
use compact_core.Common.Powers.{pow-add, two-pow-byte}
use compact_core.Primitives.Bitmap.{byte_count, last_or, padding_mask}
use compact_core.Primitives.Bitmap.RoundTrip.{last_or-get_or}
use compact_core.Primitives.Bitpack.{
  Packed, max_decoded_values, max_value_for_width, any_over, validate_bit_width, push_values, flush,
  encode_u64, reject_non_zero_padding, decode_u64,
}
use compact_core.Primitives.Bitpack.Pack.{number_of, Fits, push_values-Grown, flush-number}
use compact_core.Primitives.Bitpack.Unpack.{byte_at, read_values-number}

-- The digits' number ends where their bits do.
number_of-lt :
    (w : ℕ) (values : List ℕ)
    → All (λ value. value < 2 ^ w) values
    → number_of w values < 2 ^ (length values * w)
unfolding number_of
number_of-lt w [] h = one-le-pow (0 * w) 2 (omega arith)
number_of-lt w (value ∷ values) (small, others) =
    let power : 2 ^ (suc (length values) * w) ≡ 2 ^ w * 2 ^ (length values * w) =
      ap (λ (t : ℕ). 2 ^ t) (grind arith) ∙ pow-add 2 w (length values * w) in
    let rest : number_of w values + 1 ≤ 2 ^ (length values * w) =
      omega (arith, number_of-lt w values others) in
    omega (arith, power, mul-le-mul_left (2 ^ w) rest, mul-add (2 ^ w) (number_of w values) 1)

-- A byte below a power of two has no bit under the mask from there on.
padding_table :
    holds_below 8
      (λ r. holds_below 256 (λ b. not (ltb b (2 ^ r)) || (bit_and b (padding_mask r) == 0)))
    ≡ true
unfolding holds_below
padding_table = refl

padding-lt : (r b : ℕ) → r < 8 → b < 2 ^ r → b < 256 → (bit_and b (padding_mask r) == 0) ≡ true
padding-lt r b hr small byte =
    let row =
      below 256 (λ x. not (ltb x (2 ^ r)) || (bit_and x (padding_mask r) == 0)) b
        (below 8
          (λ y. holds_below 256 (λ x. not (ltb x (2 ^ y)) || (bit_and x (padding_mask y) == 0))) r
          padding_table hr)
        byte in
    let test : ltb b (2 ^ r) ≡ true = ground arith in rw (test) at row

max-width : (w : ℕ) → w ≤ 64 → max_value_for_width w + 1 ≡ 2 ^ w
max-width w le = elim (ℕ_discrete w 64) [
  | yes full ↦
      let test : (w == 64) ≡ true = (==_iff w 64).1 full in
      rw (test) (ap (λ (t : ℕ). 2 ^ t) (sym full))
  | no less ↦
      let test : (w == 64) ≡ false = ground arith in
      elim (ℕ_discrete w 0) [
        | yes none ↦
            let test' : (w == 0) ≡ true = (==_iff w 0).1 none in
            rw (test, test') (sym (ap (λ (t : ℕ). 2 ^ t) none ∙ pow-zero 2))
        | no some ↦
            let test' : (w == 0) ≡ false = ground arith in
            rw (test, test') (omega (arith, one-le-pow w 2 (omega arith)))
      ]
]

none_over :
    (max bound : ℕ) (values : List ℕ)
    → max + 1 ≡ bound
    → All (λ value. value < bound) values
    → any_over max values ≡ false
none_over max bound [] e h = refl
none_over max bound (value ∷ values) e (small, others) =
    let test : ltb max value ≡ false = ground arith in
    rw (test) (none_over max bound values e others)

-- What the loops write for values that fit.
pub packed : ℕ → List ℕ → List ℕ
packed w values =
    flush (push_values w values (record { out = []; current_byte = 0; bits_in_current_byte = 0 }))

-- The values that `w` bits hold.
abbrev pub InWidth : ℕ → List ℕ → Type 0
InWidth w values = (w ≤ 64) × All (λ value. value < 2 ^ w) values

ends : (n : ℕ) → from_le_bytes [] + 256 ^ 0 * 0 + n * 2 ^ (8 * 0 + 0) ≡ n
unfolding from_le_bytes
ends n = omega arith

pub packed-number :
    (w : ℕ) (values : List ℕ)
    → All (λ value. value < 2 ^ w) values
    → All IsByte (packed w values)
      × (from_le_bytes (packed w values) ≡ number_of w values)
      × (length (packed w values) ≡ byte_count (length values * w))
unfolding packed
packed-number w values small =
    let start : Packed = record { out = []; current_byte = 0; bits_in_current_byte = 0 } in
    let clear : Fits start = (tt, one-le-pow 0 2 (omega arith), omega arith) in
    let (fits, (at, far)) = push_values-Grown w values start small clear in
    let (bytes, same, size) = flush-number (push_values w values start) fits in
    (bytes, same ∙ at ∙ ends (number_of w values), size ∙ ap byte_count (far ∙ omega arith))

empty_of_length : (xs : List ℕ) → length xs ≡ 0 → xs ≡ []
empty_of_length [] e = refl
empty_of_length (x ∷ xs) e = absurd (omega arith)

bits_few : (n w : ℕ) → w ≤ 64 → n ≤ max_decoded_values → ltb (n * w) (2 ^ 64) ≡ true
bits_few n w le few = ground (arith, mul-le-mul_left n le)

all_zero :
    (bound : ℕ) (values : List ℕ)
    → bound ≡ 1
    → All (λ value. value < bound) values
    → replicate (length values) 0 ≡ values
all_zero bound [] e h = refl
all_zero bound (value ∷ values) e (small, others) =
    ap₂ ◌∷◌ (omega arith) (all_zero bound values e others)

packed-padding :
    (w : ℕ) (values : List ℕ)
    → All (λ value. value < 2 ^ w) values
    → reject_non_zero_padding (packed w values) (length values * w) ≡ ok tt
unfolding reject_non_zero_padding
packed-padding w values small =
    let n = length values * w in
    let out = packed w values in
    let (bytes, same, size) = packed-number w values small in
    elim (ℕ_discrete (n % 8) 0) [
      | yes whole ↦
          let test : (length out * 8 - n == 0) ≡ true = ground (arith, size) in rw (test) refl
      | no part ↦
          let test : (length out * 8 - n == 0) ≡ false = ground (arith, size) in
          let used : (n % 8 == 0) ≡ false = ground arith in
          let last : last_or out 0 ≡ from_le_bytes out / 256 ^ (n / 8) % 256 =
            last_or-get_or out 0 (n / 8) (omega (arith, size)) ∙ byte_at out (n / 8) bytes in
          let power : 2 ^ n ≡ 2 ^ (n % 8) * 256 ^ (n / 8) =
            ap (λ (t : ℕ). 2 ^ t) (omega arith)
            ∙ pow-add 2 (n % 8) (8 * (n / 8))
            ∙ ap (λ (t : ℕ). 2 ^ (n % 8) * t) (two-pow-byte (n / 8)) in
          let top : from_le_bytes out / 256 ^ (n / 8) < 2 ^ (n % 8) =
            (div-lt_iff_lt-mul (one-le-pow (n / 8) 256 (omega arith))).1
              (omega (arith, power, same, number_of-lt w values small)) in
          let clear : (bit_and (last_or out 0) (padding_mask (n % 8)) == 0) ≡ true =
            padding-lt (n % 8) (last_or out 0) (omega arith) (omega (arith, last, top))
              (omega (arith, last)) in
          rw (test, used, clear) refl
    ]

pub encode_u64-packed :
    (w : ℕ) (values : List ℕ)
    → InWidth w values
    → length values ≤ max_decoded_values
    → encode_u64 values w ≡ ok (packed w values)
unfolding encode_u64 packed validate_bit_width push_values
encode_u64-packed w [] (le, small) few =
    let narrow : ltb 64 w ≡ false = ground arith in rw (narrow) refl
encode_u64-packed w (value ∷ values) (le, small) few =
    let narrow : ltb 64 w ≡ false = ground arith in
    let short : ltb (length (value ∷ values) * w) (2 ^ 64) ≡ true =
      bits_few (length (value ∷ values)) w le few in
    let inside =
      none_over (max_value_for_width w) (2 ^ w) (value ∷ values) (max-width w le) small in
    elim (ℕ_discrete w 0) [
      | yes none ↦
          let test : (w == 0) ≡ true = (==_iff w 0).1 none in
          let zeros : any_over 0 (value ∷ values) ≡ false =
            none_over 0 (2 ^ w) (value ∷ values)
              (omega (arith, ap (λ (t : ℕ). 2 ^ t) none, pow-zero 2)) small in
          let (bytes, same, size) = packed-number w (value ∷ values) small in
          let empty =
            empty_of_length (packed w (value ∷ values)) (
              size ∙ ap (λ (t : ℕ). byte_count (length (value ∷ values) * t)) none ∙ omega arith) in
          rw (narrow, test, zeros) (ap ok (sym empty))
      | no some ↦
          let test : (w == 0) ≡ false = ground arith in rw (narrow, inside, test, short) refl
    ]

pub decode_u64-packed :
    (w : ℕ) (values : List ℕ)
    → InWidth w values
    → length values ≤ max_decoded_values
    → decode_u64 (packed w values) w (length values) ≡ ok values
unfolding decode_u64 validate_bit_width
decode_u64-packed w values (le, small) few =
    let narrow : ltb 64 w ≡ false = ground arith in
    let within : ltb max_decoded_values (length values) ≡ false = ground arith in
    let short = bits_few (length values) w le few in
    let (bytes, same, size) = packed-number w values small in
    let exact : (length (packed w values) == byte_count (length values * w)) ≡ true =
      (==_iff _ _).1 size in
    elim (ℕ_discrete w 0) [
      | yes none ↦
          let test : (w == 0) ≡ true = (==_iff w 0).1 none in
          rw (narrow, within, short, exact, test)
            (ap ok (all_zero (2 ^ w) values (ap (λ (t : ℕ). 2 ^ t) none ∙ pow-zero 2) small))
      | no some ↦
          let test : (w == 0) ≡ false = ground arith in
          let start : from_le_bytes (packed w values) / 2 ^ 0 ≡ number_of w values =
            ap (λ (t : ℕ). from_le_bytes (packed w values) / t) (pow-zero 2)
            ∙ omega (arith, same) in
          rw
            (
              narrow,
              within,
              short,
              exact,
              test,
              packed-padding w values small,
              read_values-number (packed w values) w values 0 bytes le small start,
            )
            refl
    ]

-- Values that fit in a width of at most 64 bits, in a count within the limit, are encoded, and what
-- is written decodes with the width and the count to the values.
pub decode_u64-encode_u64 :
    (bit_width : ℕ) (values : List ℕ)
    → InWidth bit_width values
    → length values ≤ max_decoded_values
    → (do bytes ← encode_u64 values bit_width; decode_u64 bytes bit_width (length values))
      ≡ ok values
decode_u64-encode_u64 w values fits few =
    rw (encode_u64-packed w values fits few) (decode_u64-packed w values fits few)
