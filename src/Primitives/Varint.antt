-- ===== src/Primitives/Varint.antt =====
-- crates/compact-core/src/primitives/varint.rs. A byte slice is a list of numbers below 256.
pub mod Digits
pub mod RoundTrip
pub mod Canonical
pub mod Read
pub mod Size
mod Tests
use compact_core.Common.{
  ℕ, ◌+◌, ◌*◌, ◌/◌, ◌%◌, ◌^◌, ◌≤◌, ◌<◌, bit_and, bit_or, arith, List, [], ◌∷◌, ◌++◌, Bool, not,
  ◌&&◌, ◌||◌, dite, dec_le, lt_wf, ltb, ◌==◌, if◌then◌else◌, drop, Result, ok, err, CompactError,
  invalid_input,
}
use mathlib.Core.WellFounded.{Acc}

abbrev overflow : CompactError
overflow = invalid_input "varint overflow"

abbrev overlong : CompactError
overlong = invalid_input "overlong varint"

abbrev truncated : CompactError
truncated = invalid_input "truncated varint"

pub shift_falls : (value : ℕ) → 0x80 ≤ value → value / 2 ^ 7 < value
shift_falls value h = omega arith

-- The `while value >= 0x80` loop of `encode_u64` and the push behind it: the bytes of one integer.
encode_value_loop : (value : ℕ) → Acc ◌<◌ value → List ℕ
encode_value_loop value (Acc.intro _ smaller) =
    dite (dec_le 0x80 value)
      (λ more.
        bit_or (bit_and (value % 256) 0x7f) 0x80
        ∷ encode_value_loop (value / 2 ^ 7) (smaller _ (shift_falls value more)))
      (λ _. value % 256 ∷ [])

pub encode_value : ℕ → List ℕ
encode_value value = encode_value_loop value (lt_wf.apply value)

unfoldable pub encode_u64 : List ℕ → List ℕ
unfolding encode_value encode_value_loop lt_wf dec_le
encode_u64 [] = []
encode_u64 (v ∷ values) = encode_value v ++ encode_u64 values

encoded_len_loop : (value len : ℕ) → Acc ◌<◌ value → ℕ
encoded_len_loop value len (Acc.intro _ smaller) =
    dite (dec_le 0x80 value)
      (λ more. encoded_len_loop (value / 2 ^ 7) (len + 1) (smaller _ (shift_falls value more)))
      (λ _. len)

pub encoded_len : ℕ → ℕ
unfolding encoded_len_loop lt_wf dec_le
encoded_len value = encoded_len_loop value 1 (lt_wf.apply value)

-- `shift == 63 && (part > 1 || byte & 0x80 != 0)`, or else `shift > 63`.
abbrev too_wide : ℕ → ℕ → ℕ → Bool
too_wide shift part byte =
    (shift == 63 && (ltb 1 part || not (bit_and byte 0x80 == 0))) || ltb 63 shift

-- `value |= part << shift` on u64.
abbrev add_part : ℕ → ℕ → ℕ → ℕ
add_part value part shift = bit_or value (part * 2 ^ shift % 2 ^ 64)

-- The `for &byte in data` loop and the test behind it.
pub decode_loop : List ℕ → ℕ → ℕ → ℕ → List ℕ → Result (List ℕ)
decode_loop [] value shift bytes_read out = if shift == 0 then ok out else err truncated
decode_loop (byte ∷ rest) value shift bytes_read out =
    let part = bit_and byte 0x7f in
    let value' = add_part value part shift in
    let next = decode_loop rest 0 0 0 (out ++ value' ∷ []) in
    let more = decode_loop rest value' (shift + 7) (bytes_read + 1) out in
    if too_wide shift part byte
    then err overflow
    else if bit_and byte 0x80 == 0
    then (if bytes_read + 1 == encoded_len value' then next else err overlong)
    else more

unfoldable pub decode_u64 : List ℕ → Result (List ℕ)
unfolding decode_loop encoded_len
decode_u64 bytes = decode_loop bytes 0 0 0 []

-- The loop of `read_u64`. The list is `data[*cursor..]`, so `data.get(*cursor)` is its head. The
-- result carries the cursor, which moves on errors too.
pub read_loop : List ℕ → ℕ → ℕ → ℕ → ℕ → Result ℕ × ℕ
read_loop [] cursor value shift bytes_read = (err truncated, cursor)
read_loop (byte ∷ rest) cursor value shift bytes_read =
    let part = bit_and byte 0x7f in
    let value' = add_part value part shift in
    let more = read_loop rest (cursor + 1) value' (shift + 7) (bytes_read + 1) in
    if too_wide shift part byte
    then (err overflow, cursor + 1)
    else if bit_and byte 0x80 == 0
    then (if bytes_read + 1 == encoded_len value'
        then (ok value', cursor + 1)
        else (err overlong, cursor + 1))
    else more

unfoldable pub read_u64 : List ℕ → ℕ → Result ℕ × ℕ
unfolding read_loop encoded_len
read_u64 bytes cursor = read_loop (drop cursor bytes) cursor 0 0 0
