-- ===== src/Primitives/Bitmap/RoundTrip.antt =====
-- `decode` on what `encode` writes.
use compact_core.Common.{
  ℕ, zero, suc, ◌+◌, ◌*◌, ◌/◌, ◌%◌, ◌^◌, ◌≤◌, ◌<◌, ◌≡◌, ◌≢◌, refl, ap₂, ◌∙◌, arith, bit_and, List,
  [], ◌∷◌, Bool, true, false, not, ◌==◌, if◌then◌else◌, length, get_or, replicate, length-set,
  length-replicate, All, IsByte, ok, ==_iff, ℕ_discrete, ◌⊎◌, inl, inr, bit_or,
}
use compact_core.Primitives.Bitmap.{
  byte_count, set_bit, set_bits, encode, test_bit, read_bits, last_or, reject_non_zero_padding,
  decode,
}
use compact_core.Primitives.Bitmap.Bits.{
  get_or-IsByte, bit_and-zero, set_bit-IsByte, test_bit-set_bit_same, test_bit-set_bit_other,
  padding-clear,
}

-- Room for the bits from `index` on, and bytes.
abbrev Room : ℕ → ℕ → List ℕ → Type 0
Room index count out = All IsByte out × (index + count ≤ 8 * length out)

step_out : ℕ → Bool → List ℕ → List ℕ
step_out index bit out = if bit then set_bit out index else out

step_out-Room :
    (index : ℕ) (bit : Bool) (count : ℕ) (out : List ℕ)
    → Room index (suc count) out
    → Room (index + 1) count (step_out index bit out)
unfolding step_out
step_out-Room index true count out (bytes, room) = (
  set_bit-IsByte out index bytes (omega arith),
  omega (arith, length-set out (index / 8) (bit_or (get_or out (index / 8) 0) (2 ^ (index % 8)))),
)
step_out-Room index false count out (bytes, room) = (bytes, omega arith)

step_out-other :
    (index : ℕ) (bit : Bool) (count : ℕ) (out : List ℕ)
    → Room index (suc count) out
    → (j : ℕ) → index ≢ j
    → test_bit (step_out index bit out) j ≡ test_bit out j
unfolding step_out
step_out-other index true count out (bytes, room) j other =
    test_bit-set_bit_other out index bytes (omega arith) j other
step_out-other index false count out room j other = refl

step_out-same :
    (index : ℕ) (bit : Bool) (count : ℕ) (out : List ℕ)
    → Room index (suc count) out
    → test_bit out index ≡ false
    → test_bit (step_out index bit out) index ≡ bit
unfolding step_out
step_out-same index true count out (bytes, room) clear =
    test_bit-set_bit_same out index bytes (omega arith)
step_out-same index false count out room clear = clear

-- The loop touches the bits from `index` to behind the last.
set_bits-other :
    (bits : List Bool) (index : ℕ) (out : List ℕ)
    → Room index (length bits) out
    → (j : ℕ) → (j < index) ⊎ (index + length bits ≤ j)
    → test_bit (set_bits index bits out) j ≡ test_bit out j
unfolding set_bits step_out
set_bits-other [] index out room j away = refl
set_bits-other (bit ∷ bits) index out room j away =
    let next = step_out-Room index bit (length bits) out room in
    set_bits-other bits (index + 1) (step_out index bit out) next j (ground arith)
    ∙ step_out-other index bit (length bits) out room j (λ e. ground arith)

set_bits-Room :
    (bits : List Bool) (index : ℕ) (out : List ℕ)
    → Room index (length bits) out
    → All IsByte (set_bits index bits out) × (length (set_bits index bits out) ≡ length out)
unfolding set_bits step_out
set_bits-Room [] index out room = (room.0, refl)
set_bits-Room (true ∷ bits) index out room =
    let (bytes, same) =
      set_bits-Room bits (index + 1) (set_bit out index)
        (step_out-Room index true (length bits) out room) in
    (bytes, same ∙ length-set out (index / 8) (bit_or (get_or out (index / 8) 0) (2 ^ (index % 8))))
set_bits-Room (false ∷ bits) index out room =
    set_bits-Room bits (index + 1) out (step_out-Room index false (length bits) out room)

read_bits-set_bits :
    (bits : List Bool) (index : ℕ) (out : List ℕ)
    → Room index (length bits) out
    → ((j : ℕ) → index ≤ j → test_bit out j ≡ false)
    → read_bits (set_bits index bits out) index (length bits) ≡ bits
unfolding set_bits read_bits step_out
read_bits-set_bits [] index out room clear = refl
read_bits-set_bits (bit ∷ bits) index out room clear =
    let out' = step_out index bit out in
    let next = step_out-Room index bit (length bits) out room in
    ap₂ ◌∷◌
      (set_bits-other bits (index + 1) out' next index (inl (omega arith))
        ∙ step_out-same index bit (length bits) out room (clear index (omega arith)))
      (read_bits-set_bits bits (index + 1) out' next (λ j h.
        step_out-other index bit (length bits) out room j (λ e. ground arith)
        ∙ clear j (omega arith)))

replicate-IsByte : (n : ℕ) → All IsByte (replicate {A = ℕ} n 0)
replicate-IsByte zero = tt
replicate-IsByte (suc n) = (omega arith, replicate-IsByte n)

pub length-encode : (bits : List Bool) → length (encode bits) ≡ byte_count (length bits)
unfolding encode
length-encode bits =
    let n = length bits in
    let size : length (replicate {A = ℕ} (byte_count n) 0) ≡ byte_count n =
      length-replicate (byte_count n) 0 in
    let room : Room 0 n (replicate (byte_count n) 0) =
      (replicate-IsByte (byte_count n), omega arith) in
    (set_bits-Room bits 0 (replicate (byte_count n) 0) room).1 ∙ size

get_or-replicate : (n i : ℕ) → get_or (replicate {A = ℕ} n 0) i 0 ≡ 0
get_or-replicate zero i = refl
get_or-replicate (suc n) zero = refl
get_or-replicate (suc n) (suc i) = get_or-replicate n i

test_bit-replicate : (n j : ℕ) → test_bit (replicate n 0) j ≡ false
test_bit-replicate n j = rw (get_or-replicate n (j / 8), bit_and-zero (j % 8) (omega arith)) refl

pub last_or-get_or :
    (xs : List ℕ) (d : ℕ) (n : ℕ) → length xs ≡ suc n → last_or xs d ≡ get_or xs n 0
last_or-get_or [] d n h = absurd (omega arith)
last_or-get_or (x ∷ []) d zero h = refl
last_or-get_or (x ∷ y ∷ xs) d zero h = absurd (omega arith)
last_or-get_or (x ∷ []) d (suc n) h = absurd (omega arith)
last_or-get_or (x ∷ y ∷ xs) d (suc n) h = last_or-get_or (y ∷ xs) x n (omega arith)

-- Bits encoded and decoded with their count are the bits: the length fits and the padding is clear.
pub decode-encode : (bits : List Bool) → decode (encode bits) (length bits) ≡ ok bits
unfolding decode encode reject_non_zero_padding
decode-encode bits =
    let n = length bits in
    let zeros = replicate (byte_count n) 0 in
    let size : length zeros ≡ byte_count n = length-replicate (byte_count n) 0 in
    let room : Room 0 n zeros = (replicate-IsByte (byte_count n), omega arith) in
    let out = set_bits 0 bits zeros in
    let (bytes, same) = set_bits-Room bits 0 zeros room in
    let read : read_bits out 0 n ≡ bits =
      read_bits-set_bits bits 0 zeros room (λ j h. test_bit-replicate (byte_count n) j) in
    let fits : (length out == byte_count n) ≡ true =
      (==_iff (length out) (byte_count n)).1 (same ∙ size) in
    elim (ℕ_discrete (n % 8) 0) [
      | yes whole ↦ rw (fits, whole, read) refl
      | no part ↦
          let last : last_or out 0 ≡ get_or out (n / 8) 0 =
            last_or-get_or out 0 (n / 8) (omega (arith, same, size)) in
          let behind : (k : ℕ)
              → k < 8
              → n % 8 ≤ k
              → not (bit_and (get_or out (n / 8) 0) (2 ^ k) == 0) ≡ false =
            λ k hk le.
              let at : test_bit out (n / 8 * 8 + k) ≡ false =
                set_bits-other bits 0 zeros room (n / 8 * 8 + k) (inr (omega arith))
                ∙ test_bit-replicate (byte_count n) (n / 8 * 8 + k) in
              let byte : (n / 8 * 8 + k) / 8 ≡ n / 8 = omega arith in
              let place : (n / 8 * 8 + k) % 8 ≡ k = omega arith in rw (byte, place) at at in
          let clear =
            padding-clear (get_or out (n / 8) 0) (n % 8) (get_or-IsByte out (n / 8) bytes)
              (omega arith) behind in
          let used : (n % 8 == 0) ≡ false = ground arith in rw (fits, used, last, clear, read) refl
    ]
