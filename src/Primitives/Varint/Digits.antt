-- ===== src/Primitives/Varint/Digits.antt =====
-- The loops over one integer as equations on its lowest group of seven bits.
use compact_core.Common.{
  ℕ, zero, suc, ◌+◌, ◌*◌, ◌/◌, ◌%◌, ◌^◌, ◌≤◌, ◌<◌, bit_and, bit_or, ◌≡◌, refl, ap, ap₂, ◌∙◌, arith,
  [], ◌∷◌, lt_wf, acc_unique, dec_le, dec_lt,
}
use compact_core.Common.Bits.{bit_or_disjoint}
use compact_core.Common.Masks.{low_seven, with_top_bit}
use compact_core.Primitives.Varint.{
  encode_value, encode_value_loop, encoded_len, encoded_len_loop, add_part, shift_falls,
}
use mathlib.Core.Logic.{dif_pos}
use mathlib.Core.WellFounded.{Acc}
use native.Mathlib.Nat.{pow-suc, mod-eq_of_lt, div-add-mod, mul-le-mul_right, pow-le-pow_right}
use native.Mathlib.Numerals.{towards_suc}
use native.Mathlib.Bridge.{le_prop}

inner_byte : (v : ℕ) → bit_or (bit_and (v % 256) 0x7f) 0x80 ≡ v % 128 + 128
inner_byte v =
    ap (λ t. bit_or t 0x80) (low_seven (v % 256) (omega arith))
    ∙ with_top_bit (v % 256 % 128) (omega arith)
    ∙ omega arith

encode_value_loop-small : (v : ℕ) (w : Acc ◌<◌ v) → v < 128 → encode_value_loop v w ≡ v ∷ []
unfolding encode_value_loop
encode_value_loop-small v (Acc.intro _ s) h = grind arith

encode_value_loop-large :
    (v : ℕ) (w : Acc ◌<◌ v) (w' : Acc ◌<◌ (v / 128))
    → 128 ≤ v
    → encode_value_loop v w ≡ (v % 128 + 128) ∷ encode_value_loop (v / 128) w'
unfolding encode_value_loop
encode_value_loop-large v (Acc.intro _ s) w' h =
    dif_pos (dec_le 0x80 v) le_prop h _ _
    ∙ ap₂ ◌∷◌ (inner_byte v)
        (ap (encode_value_loop (v / 128)) (acc_unique _ (s _ (shift_falls v h)) w'))

pub encode_value-small : (v : ℕ) → v < 128 → encode_value v ≡ v ∷ []
unfolding encode_value
encode_value-small v h = encode_value_loop-small v _ h

pub encode_value-large :
    (v : ℕ) → 128 ≤ v → encode_value v ≡ (v % 128 + 128) ∷ encode_value (v / 128)
unfolding encode_value
encode_value-large v h = encode_value_loop-large v _ _ h

encoded_len_loop-suc :
    (v len : ℕ) (w : Acc ◌<◌ v) → encoded_len_loop v (len + 1) w ≡ encoded_len_loop v len w + 1
unfolding encoded_len_loop
encoded_len_loop-suc v len (Acc.intro _ s) =
    grind
      (arith, λ (h : 0x80 ≤ v). encoded_len_loop-suc (v / 2 ^ 7) (len + 1) (s _ (shift_falls v h)))

encoded_len_loop-large :
    (v len : ℕ) (w : Acc ◌<◌ v) (w' : Acc ◌<◌ (v / 128))
    → 128 ≤ v
    → encoded_len_loop v len w ≡ encoded_len_loop (v / 128) len w' + 1
unfolding encoded_len_loop
encoded_len_loop-large v len (Acc.intro _ s) w' h =
    dif_pos (dec_le 0x80 v) le_prop h _ _
    ∙ ap (encoded_len_loop (v / 128) (len + 1)) (acc_unique _ (s _ (shift_falls v h)) w')
    ∙ encoded_len_loop-suc (v / 128) len w'

pub encoded_len-small : (v : ℕ) → v < 128 → encoded_len v ≡ 1
unfolding encoded_len
encoded_len-small v h = go (lt_wf.apply v)
  where
    go : (w : Acc ◌<◌ v) → encoded_len_loop v 1 w ≡ 1
    go (Acc.intro _ s) = grind arith

pub encoded_len-large : (v : ℕ) → 128 ≤ v → encoded_len v ≡ encoded_len (v / 128) + 1
unfolding encoded_len
encoded_len-large v h = encoded_len_loop-large v 1 (lt_wf.apply v) (lt_wf.apply (v / 128)) h

pub two-pow-seven : (j : ℕ) → 2 ^ (7 * j) ≡ 128 ^ j
two-pow-seven zero = refl
two-pow-seven (suc j) =
    ap (λ t. 2 ^ t) (omega arith)
    ∙ shift_by_seven (7 * j)
    ∙ omega (arith, two-pow-seven j, pow-suc 128 j)
  where
    shift_by_seven : (s : ℕ) → 2 ^ (s + 7) ≡ 128 * 2 ^ s
    shift_by_seven s = simp towards_suc (omega arith)

-- A group that the overflow test lets through leaves the value in 64 bits.
group_fits :
    (j v p : ℕ) → j ≤ 9 → v < 128 ^ j → p < 128 → (j ≡ 9 → p ≤ 1) → v + p * 128 ^ j < 2 ^ 64
group_fits j v p hj hv hp last = elim (dec_lt j 9) [
  | yes less ↦
      let top : 128 ^ j ≤ 128 ^ 8 = pow-le-pow_right (omega arith) {i = j} {j = 8} (omega arith) in
      let product : p * 128 ^ j ≤ 127 * 128 ^ j = mul-le-mul_right (128 ^ j) (omega arith) in
      omega arith
  | no at ↦
      let e : j ≡ 9 = omega arith in
      let top : 128 ^ j ≡ 128 ^ 9 = ap (λ t. 128 ^ t) e in
      let product : p * 128 ^ j ≤ 1 * 128 ^ j = mul-le-mul_right (128 ^ j) (last e) in omega arith
]

-- `value |= part << shift` adds the group at position `j`.
pub add_part-eq :
    (j v p : ℕ)
    → j ≤ 9
    → v < 128 ^ j
    → p < 128
    → (j ≡ 9 → p ≤ 1)
    → (add_part v p (7 * j) ≡ v + p * 128 ^ j) × (v + p * 128 ^ j < 2 ^ 64)
add_part-eq j v p hj hv hp last =
    let fits = group_fits j v p hj hv hp last in
    let e = two-pow-seven j in
    let whole : p * 2 ^ (7 * j) % 2 ^ 64 ≡ p * 2 ^ (7 * j) = mod-eq_of_lt (rw e (omega arith)) in
    (ap (bit_or v) whole ∙ bit_or_disjoint (7 * j) v p (rw e hv) ∙ rw e, fits)

pub pow-add-one : (j : ℕ) → 128 ^ (j + 1) ≡ 128 * 128 ^ j
pow-add-one j = simp towards_suc (omega (arith, pow-suc 128 j))

-- Position 9 has room for one bit.
pub top_group : (j w v : ℕ) → v + w * 128 ^ j < 2 ^ 64 → j ≡ 9 → w ≤ 1
top_group j w v h e = omega (arith, ap (λ (t : ℕ). w * 128 ^ t) e)

-- The lowest group of `w` and the groups above it, both at position `j`.
pub split_groups : (j w : ℕ) → w * 128 ^ j ≡ w % 128 * 128 ^ j + w / 128 * 128 ^ (j + 1)
split_groups j w = omega (
  arith,
  ap (λ (t : ℕ). t * 128 ^ j) (div-add-mod w 128),
  ap (λ (t : ℕ). w / 128 * t) (pow-add-one j),
)

-- A group at position `j` joins the value below it.
pub group-lt : (j v p : ℕ) → v < 128 ^ j → p < 128 → v + p * 128 ^ j < 128 ^ (j + 1)
group-lt j v p hv hp =
    let product : p * 128 ^ j ≤ 127 * 128 ^ j = mul-le-mul_right (128 ^ j) (omega arith) in
    rw pow-add-one (omega arith)
