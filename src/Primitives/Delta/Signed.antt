-- ===== src/Primitives/Delta/Signed.antt =====
-- Deltas of i64 values.
use compact_core.Common.{
  ◌≡◌, refl, arith, List, [], ◌∷◌, ok, All, ◌↔◌, ap, true, invalid_input, ◌>>=◌, ◌∙◌,
}
use compact_core.Common.Int.{ℤ, ◌+ℤ◌, ◌-ℤ◌, IsI64, in_i64, -ℤ-+ℤ, +ℤ--ℤ}
use compact_core.Primitives.Delta.{
  encode_delta_i64, decode_delta_i64, encode_windows_i64, decode_rest_i64, checked_i64, ok_or,
}

in_i64-IsI64 : (z : ℤ) → IsI64 z → in_i64 z ≡ true
in_i64-IsI64 z h = ground arith

windows-cons_ok :
    (previous x d : ℤ) (xs ds : List ℤ)
    → encode_windows_i64 previous (x ∷ xs) ≡ ok (d ∷ ds)
    → (d ≡ x -ℤ previous) × (IsI64 d) × (encode_windows_i64 x xs ≡ ok ds)
unfolding encode_windows_i64
windows-cons_ok previous x d xs ds h = go (x -ℤ previous) refl h
  where
    go :
        (z : ℤ)
        → z ≡ x -ℤ previous
        → (do
          delta ← ok_or (checked_i64 z) (invalid_input "i64 delta encode overflow")
          out ← encode_windows_i64 x xs
          ok (delta ∷ out))
          ≡ ok (d ∷ ds)
        → (d ≡ x -ℤ previous) × (IsI64 d) × (encode_windows_i64 x xs ≡ ok ds)
    go z e k = ground arith

rest-cons_ok :
    (previous d x : ℤ) (ds xs : List ℤ)
    → decode_rest_i64 previous (d ∷ ds) ≡ ok (x ∷ xs)
    → (x ≡ previous +ℤ d) × (IsI64 x) × (decode_rest_i64 x ds ≡ ok xs)
unfolding decode_rest_i64
rest-cons_ok previous d x ds xs h = go (previous +ℤ d) refl h
  where
    go :
        (z : ℤ)
        → z ≡ previous +ℤ d
        → (do
          current ← ok_or (checked_i64 z) (invalid_input "i64 delta decode overflow")
          out ← decode_rest_i64 current ds
          ok (current ∷ out))
          ≡ ok (x ∷ xs)
        → (x ≡ previous +ℤ d) × (IsI64 x) × (decode_rest_i64 x ds ≡ ok xs)
    go z e k = ground arith

windows-cons :
    (previous x d : ℤ) (xs ds : List ℤ)
    → x -ℤ previous ≡ d
    → IsI64 d
    → encode_windows_i64 x xs ≡ ok ds
    → encode_windows_i64 previous (x ∷ xs) ≡ ok (d ∷ ds)
unfolding encode_windows_i64
windows-cons previous x d xs ds e range more = rw (e, in_i64-IsI64 d range, more)

rest-cons :
    (previous d x : ℤ) (ds xs : List ℤ)
    → previous +ℤ d ≡ x
    → IsI64 x
    → decode_rest_i64 x ds ≡ ok xs
    → decode_rest_i64 previous (d ∷ ds) ≡ ok (x ∷ xs)
unfolding decode_rest_i64
rest-cons previous d x ds xs e range more = rw (e, in_i64-IsI64 x range, more)

windows→rest :
    (previous : ℤ) (values deltas : List ℤ)
    → All IsI64 values
    → encode_windows_i64 previous values ≡ ok deltas
    → decode_rest_i64 previous deltas ≡ ok values
windows→rest previous [] [] words h = unfold decode_rest_i64 in refl
windows→rest previous [] (d ∷ ds) words h = absurd (unfold encode_windows_i64 in cc)
windows→rest previous (x ∷ xs) [] words h = absurd (unfold encode_windows_i64 in ground arith)
windows→rest previous (x ∷ xs) (d ∷ ds) words h =
    let (e, range, more) = windows-cons_ok previous x d xs ds h in
    rest-cons previous d x ds xs (ap (λ t. previous +ℤ t) e ∙ -ℤ-+ℤ previous x) words.0
      (windows→rest x xs ds words.1 more)

rest→windows :
    (previous : ℤ) (deltas values : List ℤ)
    → All IsI64 deltas
    → decode_rest_i64 previous deltas ≡ ok values
    → encode_windows_i64 previous values ≡ ok deltas
rest→windows previous [] [] words h = unfold encode_windows_i64 in refl
rest→windows previous [] (x ∷ xs) words h = absurd (unfold decode_rest_i64 in cc)
rest→windows previous (d ∷ ds) [] words h = absurd (unfold decode_rest_i64 in ground arith)
rest→windows previous (d ∷ ds) (x ∷ xs) words h =
    let (e, range, more) = rest-cons_ok previous d x ds xs h in
    windows-cons previous x d xs ds (ap (λ t. t -ℤ previous) e ∙ +ℤ--ℤ previous d) words.0
      (rest→windows x ds xs words.1 more)

-- Encoding and decoding are inverse partial functions: for i64 values and deltas, `deltas` is what
-- the encoder returns for `values` if and only if `values` is what the decoder returns for `deltas`.
pub encode_delta_i64_iff :
    (values deltas : List ℤ)
    → All IsI64 values
    → All IsI64 deltas
    → (encode_delta_i64 values ≡ ok deltas) ↔ (decode_delta_i64 deltas ≡ ok values)
unfolding encode_delta_i64 decode_delta_i64
encode_delta_i64_iff [] [] words steps = (λ h. refl, λ h. refl)
encode_delta_i64_iff [] (d ∷ ds) words steps = (λ h. cc, λ h. absurd (ground arith))
encode_delta_i64_iff (x ∷ xs) [] words steps = (λ h. absurd (ground arith), λ h. cc)
encode_delta_i64_iff (x ∷ xs) (d ∷ ds) words steps = (
  λ h. ground (arith, windows→rest x xs ds words.1),
  λ h. ground (arith, rest→windows d ds xs steps.1),
)
