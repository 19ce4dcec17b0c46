-- ===== src/Primitives/Varint/Size.antt =====
-- How many bytes an encoding has.
use compact_core.Common.{
  ℕ, zero, suc, ◌+◌, ◌-◌, ◌*◌, ◌/◌, ◌^◌, ◌≤◌, ◌<◌, ◌≡◌, refl, ap, ◌⊎◌, inl, inr, arith, List, [],
  ◌∷◌, length, length-append, dec_lt, All, IsU64, IsByte, All-append,
}
use compact_core.Primitives.Varint.{encode_value, encode_u64, encoded_len}
use compact_core.Primitives.Varint.Digits.{
  encode_value-small, encode_value-large, encoded_len-small, encoded_len-large, pow-add-one,
}

-- `k` is the least number of groups of seven bits that hold `v`, one at least.
abbrev pub LeastGroups : ℕ → ℕ → Type 0
LeastGroups v k = (1 ≤ k) × (v < 128 ^ k) × ((k ≡ 1) ⊎ (128 ^ (k - 1) ≤ v))

LeastGroups-next : (v k : ℕ) → 128 ≤ v → LeastGroups (v / 128) k → LeastGroups v (k + 1)
LeastGroups-next v zero large (some_group, holds, least) = absurd (omega arith)
LeastGroups-next v (suc j) large (some_group, holds, least) =
    let up = pow-add-one j in
    let top = pow-add-one (suc j) in
    let next : 128 ^ suc j ≡ 128 ^ (j + 1) = ap (λ t. 128 ^ t) (omega arith) in
    let below : 128 ^ (suc j - 1) ≡ 128 ^ j = ap (λ t. 128 ^ t) (omega arith) in
    let same : 128 ^ (suc j + 1 - 1) ≡ 128 ^ (j + 1) = ap (λ t. 128 ^ t) (omega arith) in
    (
      omega arith,
      omega (arith, holds, top, next),
      inr (elim least [
        | inl only ↦ omega (arith, large, same, ap (λ (t : ℕ). 128 ^ t) only, next)
        | inr more ↦ omega (arith, more, up, below, same)
      ]),
    )

-- `k` bounds the groups behind the first.
encode_value-size :
    (k v : ℕ)
    → v < 128 ^ suc k
    → (length (encode_value v) ≡ encoded_len v)
      × (encoded_len v ≤ suc k)
      × LeastGroups v (encoded_len v)
      × All IsByte (encode_value v)
encode_value-size zero v h =
    rw (encode_value-small v (omega arith), encoded_len-small v (omega arith))
      (omega arith, omega arith, (omega arith, omega arith, inl refl), omega arith)
encode_value-size (suc k) v h = elim (dec_lt v 128) [
  | yes small ↦
      rw (encode_value-small v small, encoded_len-small v small)
        (omega arith, omega arith, (omega arith, omega arith, inl refl), omega arith)
  | no large ↦
      let (size, bound, least, octets) = encode_value-size k (v / 128) (omega arith) in
      rw (encode_value-large v (omega arith), encoded_len-large v (omega arith))
        (
          omega arith,
          omega arith,
          LeastGroups-next v (encoded_len (v / 128)) (omega arith) least,
          (omega arith, octets),
        )
]

-- The sizes that the decoder expects of the values.
abbrev pub expected_size : List ℕ → ℕ
expected_size [] = 0
expected_size (v ∷ values) = encoded_len v + expected_size values

-- The encoding of u64 values is bytes, as many as `encoded_len` says of the values together; and
-- `encoded_len` is at most 10 and the least number of groups of seven bits, one at
-- least, that hold the value.
pub encode_u64-size :
    (values : List ℕ)
    → All IsU64 values
    → (length (encode_u64 values) ≡ expected_size values)
      × All (λ v. (encoded_len v ≤ 10) × LeastGroups v (encoded_len v)) values
      × All IsByte (encode_u64 values)
unfolding encode_u64
encode_u64-size [] h = (omega arith, tt, tt)
encode_u64-size (v ∷ values) (hv, hs) =
    let (size, bound, least, octets) = encode_value-size 9 v (omega arith) in
    let (total, each, more) = encode_u64-size values hs in
    (
      omega (arith, size, total, length-append (encode_value v) (encode_u64 values)),
      ((bound, least), each),
      All-append IsByte (encode_value v) (encode_u64 values) octets more,
    )

pub length-encode_u64_most :
    (values : List ℕ) → All IsU64 values → length (encode_u64 values) ≤ 10 * length values
unfolding encode_u64
length-encode_u64_most [] h = omega arith
length-encode_u64_most (v ∷ values) (hv, hs) =
    let (size, bound, least, octets) = encode_value-size 9 v (omega arith) in
    omega (
      arith,
      size,
      bound,
      length-append (encode_value v) (encode_u64 values),
      length-encode_u64_most values hs,
    )
