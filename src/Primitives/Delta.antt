-- ===== src/Primitives/Delta.antt =====
-- crates/compact-core/src/primitives/delta.rs: the differences of neighbours, checked on u64 and on
-- i64, wrapping on bytes.
pub mod Unsigned
pub mod Signed
pub mod Bytes
mod Tests
use compact_core.Common.{
  ℕ, ◌+◌, ◌-◌, ◌%◌, ◌^◌, List, [], ◌∷◌, Option, none, some, ltb, leb, if◌then◌else◌, Result, ok,
  err, ◌>>=◌, CompactError, invalid_input,
}
use compact_core.Common.Int.{ℤ, ◌+ℤ◌, ◌-ℤ◌, in_i64}

-- `checked_sub` and `checked_add` on u64 and on i64.
abbrev pub checked_sub : ℕ → ℕ → Option ℕ
checked_sub a b = if leb b a then some (a - b) else none

abbrev pub checked_add : ℕ → ℕ → Option ℕ
checked_add a b = if ltb (a + b) (2 ^ 64) then some (a + b) else none

abbrev pub checked_i64 : ℤ → Option ℤ
checked_i64 z = if in_i64 z then some z else none

abbrev pub ok_or {ℓ} : {A : Type ℓ} → Option A → CompactError → Result A
ok_or none e = err e
ok_or (some a) e = ok a

-- The loop over `values.windows(2)`, behind the value `previous`.
encode_windows_u64 : ℕ → List ℕ → Result (List ℕ)
encode_windows_u64 previous [] = ok []
encode_windows_u64 previous (current ∷ values) = do
  delta ← ok_or (checked_sub current previous) (invalid_input "u64 delta cannot be negative")
  out ← encode_windows_u64 current values
  ok (delta ∷ out)

unfoldable pub encode_delta_u64 : List ℕ → Result (List ℕ)
unfolding encode_windows_u64
encode_delta_u64 [] = ok []
encode_delta_u64 (first ∷ values) = do out ← encode_windows_u64 first values; ok (first ∷ out)

decode_rest_u64 : ℕ → List ℕ → Result (List ℕ)
decode_rest_u64 previous [] = ok []
decode_rest_u64 previous (delta ∷ deltas) = do
  current ← ok_or (checked_add previous delta) (invalid_input "u64 delta decode overflow")
  out ← decode_rest_u64 current deltas
  ok (current ∷ out)

unfoldable pub decode_delta_u64 : List ℕ → Result (List ℕ)
unfolding decode_rest_u64
decode_delta_u64 [] = ok []
decode_delta_u64 (first ∷ deltas) = do out ← decode_rest_u64 first deltas; ok (first ∷ out)

encode_windows_i64 : ℤ → List ℤ → Result (List ℤ)
encode_windows_i64 previous [] = ok []
encode_windows_i64 previous (current ∷ values) = do
  delta ← ok_or (checked_i64 (current -ℤ previous)) (invalid_input "i64 delta encode overflow")
  out ← encode_windows_i64 current values
  ok (delta ∷ out)

unfoldable pub encode_delta_i64 : List ℤ → Result (List ℤ)
unfolding encode_windows_i64 ◌-ℤ◌
encode_delta_i64 [] = ok []
encode_delta_i64 (first ∷ values) = do out ← encode_windows_i64 first values; ok (first ∷ out)

decode_rest_i64 : ℤ → List ℤ → Result (List ℤ)
decode_rest_i64 previous [] = ok []
decode_rest_i64 previous (delta ∷ deltas) = do
  current ← ok_or (checked_i64 (previous +ℤ delta)) (invalid_input "i64 delta decode overflow")
  out ← decode_rest_i64 current deltas
  ok (current ∷ out)

unfoldable pub decode_delta_i64 : List ℤ → Result (List ℤ)
unfolding decode_rest_i64 ◌+ℤ◌
decode_delta_i64 [] = ok []
decode_delta_i64 (first ∷ deltas) = do out ← decode_rest_i64 first deltas; ok (first ∷ out)

-- `current.wrapping_sub(previous)` and `previous.wrapping_add(delta)` on u8.
encode_bytes_from : ℕ → List ℕ → List ℕ
encode_bytes_from previous [] = []
encode_bytes_from previous (current ∷ bytes) =
    (current + 256 - previous) % 256 ∷ encode_bytes_from current bytes

unfoldable pub encode_delta : List ℕ → List ℕ
unfolding encode_bytes_from
encode_delta [] = []
encode_delta (first ∷ bytes) = first ∷ encode_bytes_from first bytes

decode_bytes_from : ℕ → List ℕ → List ℕ
decode_bytes_from previous [] = []
decode_bytes_from previous (delta ∷ bytes) =
    let current = (previous + delta) % 256 in current ∷ decode_bytes_from current bytes

unfoldable pub decode_delta : List ℕ → List ℕ
unfolding decode_bytes_from
decode_delta [] = []
decode_delta (first ∷ bytes) = first ∷ decode_bytes_from first bytes
