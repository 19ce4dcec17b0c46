-- ===== src/Primitives/Bitmap.antt =====
-- crates/compact-core/src/primitives/bitmap.rs: one bit for a value, the lowest bit of a byte first.
pub mod Bits
pub mod RoundTrip
mod Tests
use compact_core.Common.{
  ℕ, zero, suc, ◌+◌, ◌*◌, ◌/◌, ◌%◌, ◌^◌, bit_and, bit_or, List, [], ◌∷◌, Bool, not, ◌==◌,
  if◌then◌else◌, length, get_or, set, replicate, Result, ok, err, ◌>>=◌, ◌>>◌, ensure, CompactError,
  invalid_input,
}

abbrev pub wrong_length : CompactError
wrong_length = invalid_input "bitmap length does not match bit count"

abbrev pub non_zero_padding : CompactError
non_zero_padding = invalid_input "bitmap padding bits must be zero"

-- `n.div_ceil(8)`
abbrev pub byte_count : ℕ → ℕ
byte_count n = (n + 7) / 8

-- `out[index / 8] |= 1 << (index % 8)`
abbrev pub set_bit : List ℕ → ℕ → List ℕ
set_bit out index = set out (index / 8) (bit_or (get_or out (index / 8) 0) (2 ^ (index % 8)))

-- The loop over the bits, from `index` on.
pub set_bits : ℕ → List Bool → List ℕ → List ℕ
set_bits index [] out = out
set_bits index (bit ∷ bits) out = set_bits (index + 1) bits (if bit then set_bit out index else out)

unfoldable pub encode : List Bool → List ℕ
unfolding set_bits
encode bits = set_bits 0 bits (replicate (byte_count (length bits)) 0)

-- `data[index / 8] & (1 << (index % 8)) != 0`
abbrev pub test_bit : List ℕ → ℕ → Bool
test_bit bytes index = not (bit_and (get_or bytes (index / 8) 0) (2 ^ (index % 8)) == 0)

-- `(0..bit_count).map(..)`, from `index` on.
pub read_bits : List ℕ → ℕ → ℕ → List Bool
read_bits bytes index zero = []
read_bits bytes index (suc count) = test_bit bytes index ∷ read_bits bytes (index + 1) count

-- `data.last()`; an empty slice has no padding, as 0 has none.
abbrev pub last_or : List ℕ → ℕ → ℕ
last_or [] d = d
last_or (b ∷ bytes) d = last_or bytes b

-- `u8::MAX << used`
abbrev pub padding_mask : ℕ → ℕ
padding_mask used = 255 * 2 ^ used % 256

unfoldable pub reject_non_zero_padding : List ℕ → ℕ → Result (Unit {0})
reject_non_zero_padding bytes bit_count =
    if bit_count % 8 == 0
    then ok tt
    else ensure (bit_and (last_or bytes 0) (padding_mask (bit_count % 8)) == 0) non_zero_padding

unfoldable pub decode : List ℕ → ℕ → Result (List Bool)
unfolding reject_non_zero_padding read_bits
decode bytes bit_count = do
  ensure (length bytes == byte_count bit_count) wrong_length
  reject_non_zero_padding bytes bit_count
  ok (read_bits bytes 0 bit_count)
