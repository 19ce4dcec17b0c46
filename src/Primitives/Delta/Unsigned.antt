-- ===== src/Primitives/Delta/Unsigned.antt =====
-- Deltas of u64 values: exactly the non-decreasing series have them, and they are taken back.
use compact_core.Common.{
  ◌<◌, true, ltb, ◌^◌, Bool-cases, inl, inr, CompactError, err, invalid_input, length, dec_le, ℕ,
  ◌+◌, ◌-◌, ◌≤◌, ◌≡◌, refl, arith, List, [], ◌∷◌, ok, All, IsU64, ◌↔◌,
}
use compact_core.Primitives.Delta.{
  checked_add, ok_or, encode_delta_u64, decode_delta_u64, encode_windows_u64, decode_rest_u64,
}

-- No value is below the one before it.
abbrev pub NonDecreasingFrom : ℕ → List ℕ → Type 0
NonDecreasingFrom previous [] = Unit
NonDecreasingFrom previous (x ∷ xs) = (previous ≤ x) × NonDecreasingFrom x xs

abbrev pub NonDecreasing : List ℕ → Type 0
NonDecreasing [] = Unit
NonDecreasing (x ∷ xs) = NonDecreasingFrom x xs

windows→rest :
    (previous : ℕ) (values deltas : List ℕ)
    → All IsU64 values
    → encode_windows_u64 previous values ≡ ok deltas
    → decode_rest_u64 previous deltas ≡ ok values
unfolding encode_windows_u64 decode_rest_u64
windows→rest previous [] [] words h = refl
windows→rest previous [] (d ∷ ds) words h = cc
windows→rest previous (x ∷ xs) [] words h = absurd (ground arith)
windows→rest previous (x ∷ xs) (d ∷ ds) words h = ground (arith, windows→rest x xs ds words.1)

rest→windows :
    (previous : ℕ) (deltas values : List ℕ)
    → decode_rest_u64 previous deltas ≡ ok values
    → encode_windows_u64 previous values ≡ ok deltas
unfolding encode_windows_u64 decode_rest_u64
rest→windows previous [] [] h = refl
rest→windows previous [] (x ∷ xs) h = cc
rest→windows previous (d ∷ ds) [] h = absurd (ground arith)
rest→windows previous (d ∷ ds) (x ∷ xs) h = ground (arith, rest→windows (previous + d) ds xs)

-- Encoding and decoding are inverse partial functions: for u64 values, `deltas` is what the encoder
-- returns for `values` if and only if `values` is what the decoder returns for `deltas`.
pub encode_delta_u64_iff :
    (values deltas : List ℕ)
    → All IsU64 values
    → (encode_delta_u64 values ≡ ok deltas) ↔ (decode_delta_u64 deltas ≡ ok values)
unfolding encode_delta_u64 decode_delta_u64
encode_delta_u64_iff [] [] words = (λ h. refl, λ h. refl)
encode_delta_u64_iff [] (d ∷ ds) words = (λ h. cc, λ h. absurd (ground arith))
encode_delta_u64_iff (x ∷ xs) [] words = (λ h. absurd (ground arith), λ h. cc)
encode_delta_u64_iff (x ∷ xs) (d ∷ ds) words =
    (λ h. ground (arith, windows→rest x xs ds words.1), λ h. ground (arith, rest→windows d ds xs))

windows-sorted :
    (previous : ℕ) (values : List ℕ)
    → NonDecreasingFrom previous values
    → (deltas : List ℕ) × (encode_windows_u64 previous values ≡ ok deltas)
unfolding encode_windows_u64
windows-sorted previous [] sorted = ([], refl)
windows-sorted previous (x ∷ xs) (le, sorted) =
    let (deltas, e) = windows-sorted x xs sorted in ((x - previous) ∷ deltas, ground arith)

windows-unsorted :
    (previous : ℕ) (values : List ℕ)
    → ¬ NonDecreasingFrom previous values
    → encode_windows_u64 previous values ≡ err (invalid_input "u64 delta cannot be negative")
unfolding encode_windows_u64
windows-unsorted previous [] unsorted = absurd (unsorted tt)
windows-unsorted previous (x ∷ xs) unsorted = elim (dec_le previous x) [
  | yes le ↦ ground (arith, windows-unsorted x xs (λ s. unsorted (le, s)))
  | no gt ↦ ground arith
]

-- The encoder succeeds on a non-decreasing series, and refuses any other with the error of a
-- negative delta.
pub encode_delta_u64_domain :
    (values : List ℕ)
    → (NonDecreasing values → (deltas : List ℕ) × (encode_delta_u64 values ≡ ok deltas))
      × (¬ NonDecreasing values
          → encode_delta_u64 values ≡ err (invalid_input "u64 delta cannot be negative"))
unfolding encode_delta_u64
encode_delta_u64_domain [] = (λ s. ([], refl), λ u. absurd (u tt))
encode_delta_u64_domain (x ∷ xs) = (
  λ s. let (deltas, e) = windows-sorted x xs s in (x ∷ deltas, rw e),
  λ u. rw (windows-unsorted x xs u),
)

deltas-IsU64 :
    (previous : ℕ) (values deltas : List ℕ)
    → All IsU64 values
    → encode_windows_u64 previous values ≡ ok deltas
    → All IsU64 deltas
unfolding encode_windows_u64
deltas-IsU64 previous [] [] words h = tt
deltas-IsU64 previous [] (d ∷ ds) words h = cc
deltas-IsU64 previous (x ∷ xs) [] words h = tt
deltas-IsU64 previous (x ∷ xs) (d ∷ ds) words h = ground (arith, deltas-IsU64 x xs ds words.1)

-- The deltas of u64 values are u64 values.
pub encode_delta_u64-IsU64 :
    (values deltas : List ℕ)
    → All IsU64 values
    → encode_delta_u64 values ≡ ok deltas
    → All IsU64 deltas
unfolding encode_delta_u64
encode_delta_u64-IsU64 [] [] words h = tt
encode_delta_u64-IsU64 [] (d ∷ ds) words h = cc
encode_delta_u64-IsU64 (x ∷ xs) [] words h = tt
encode_delta_u64-IsU64 (x ∷ xs) (d ∷ ds) words h = ground (arith, deltas-IsU64 x xs ds words.1)

windows-length :
    (previous : ℕ) (values deltas : List ℕ)
    → encode_windows_u64 previous values ≡ ok deltas
    → length deltas ≡ length values
unfolding encode_windows_u64
windows-length previous [] [] h = refl
windows-length previous [] (d ∷ ds) h = cc
windows-length previous (x ∷ xs) [] h = absurd (ground arith)
windows-length previous (x ∷ xs) (d ∷ ds) h = ground (arith, windows-length x xs ds)

pub encode_delta_u64-length :
    (values deltas : List ℕ) → encode_delta_u64 values ≡ ok deltas → length deltas ≡ length values
unfolding encode_delta_u64
encode_delta_u64-length [] [] h = refl
encode_delta_u64-length [] (d ∷ ds) h = cc
encode_delta_u64-length (x ∷ xs) [] h = absurd (ground arith)
encode_delta_u64-length (x ∷ xs) (d ∷ ds) h = ground (arith, windows-length x xs ds)

-- A checked sum that did not overflow is the sum.
pub checked_add-sum :
    (a b sum : ℕ) (failure : CompactError) → ok_or (checked_add a b) failure ≡ ok sum → sum ≡ a + b
checked_add-sum a b sum failure e = elim (Bool-cases (ltb (a + b) (2 ^ 64))) [
  | inl room ↦ let at : ok (a + b) ≡ ok sum = rw (room) at e in cc
  | inr over ↦ let at : err failure ≡ ok sum = rw (over) at e in cc
]

pub checked_add-room :
    (a b : ℕ) (failure : CompactError)
    → a + b < 2 ^ 64
    → ok_or (checked_add a b) failure ≡ ok (a + b)
checked_add-room a b failure fits =
    let room : ltb (a + b) (2 ^ 64) ≡ true = ground arith in rw (room) refl

pub checked_add-fits :
    (a b sum : ℕ) (failure : CompactError) → ok_or (checked_add a b) failure ≡ ok sum → sum < 2 ^ 64
checked_add-fits a b sum failure e = elim (Bool-cases (ltb (a + b) (2 ^ 64))) [
  | inl room ↦
      let at : ok (a + b) ≡ ok sum = rw (room) at e in
      let same : a + b ≡ sum = cc in ground (arith, same)
  | inr over ↦ let at : err failure ≡ ok sum = rw (over) at e in cc
]
