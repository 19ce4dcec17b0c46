-- ===== src/Primitives/Bitpack.antt =====
-- crates/compact-core/src/primitives/bitpack.rs: u64 values in a fixed number of bits each.
pub mod Pack
pub mod Unpack
pub mod RoundTrip
mod Tests
use compact_core.Common.{
  ℕ, zero, suc, ◌+◌, ◌-◌, ◌*◌, ◌/◌, ◌%◌, ◌^◌, bit_and, bit_or, List, [], ◌∷◌, ◌++◌, Bool, true,
  false, not, ◌||◌, ltb, ◌==◌, if◌then◌else◌, length, get_or, replicate, Result, ok, err, ◌>>=◌,
  ◌>>◌, ensure, CompactError, invalid_input,
}
use compact_core.Primitives.Bitmap.{byte_count, last_or, padding_mask}

-- crates/compact-core/src/limits.rs
abbrev pub max_decoded_values : ℕ
max_decoded_values = 16 * 1024 * 1024

unfoldable pub validate_bit_width : ℕ → Result (Unit {0})
validate_bit_width bit_width =
    ensure (not (ltb 64 bit_width)) (invalid_input "bit width must be <= 64")

abbrev pub max_value_for_width : ℕ → ℕ
max_value_for_width bit_width =
    if bit_width == 64 then 2 ^ 64 - 1 else if bit_width == 0 then 0 else 2 ^ bit_width - 1

-- `values.iter().any(|&value| value > max)`; `value != 0` is `value > 0`.
abbrev pub any_over : ℕ → List ℕ → Bool
any_over max [] = false
any_over max (value ∷ values) = ltb max value || any_over max values

-- The locals of the packing loop: `out`, `current_byte` and `bits_in_current_byte`.
pub record Packed : Type 0 where
  pub out : List ℕ
  pub current_byte : ℕ
  pub bits_in_current_byte : ℕ

-- The body of the inner loop.
abbrev pub push_bit : ℕ → Packed → Packed
push_bit bit s =
    let current = bit_or s.current_byte (bit * 2 ^ s.bits_in_current_byte % 256) in
    if s.bits_in_current_byte + 1 == 8
    then record { out = s.out ++ current ∷ []; current_byte = 0; bits_in_current_byte = 0 }
    else record {
      out = s.out;
      current_byte = current;
      bits_in_current_byte = s.bits_in_current_byte + 1;
    }

-- `for bit_index in 0..bit_width`, from `bit_index` on.
unfoldable pub push_value : ℕ → ℕ → ℕ → Packed → Packed
push_value zero bit_index value s = s
push_value (suc count) bit_index value s =
    push_value count (bit_index + 1) value (push_bit (bit_and (value / 2 ^ bit_index) 1) s)

unfoldable pub push_values : ℕ → List ℕ → Packed → Packed
unfolding push_value
push_values bit_width [] s = s
push_values bit_width (value ∷ values) s =
    push_values bit_width values (push_value bit_width 0 value s)

-- The test behind the loops.
abbrev pub flush : Packed → List ℕ
flush s = if ltb 0 s.bits_in_current_byte then s.out ++ s.current_byte ∷ [] else s.out

abbrev pub zero_bits : CompactError
zero_bits = invalid_input "non-zero value cannot fit in zero bits"

abbrev pub over_width : CompactError
over_width = invalid_input "value exceeds bit width"

abbrev pub wrong_length : CompactError
wrong_length = invalid_input "bit-packed input length does not match value count"

abbrev pub non_zero_padding : CompactError
non_zero_padding = invalid_input "bit-packed padding bits must be zero"

abbrev no_bits : List ℕ → ℕ → Bool
no_bits [] bit_width = true
no_bits (value ∷ values) bit_width = bit_width == 0

unfoldable pub encode_u64 : List ℕ → ℕ → Result (List ℕ)
unfolding validate_bit_width push_values
encode_u64 values bit_width =
    let packed = (do
      ensure (not (any_over (max_value_for_width bit_width) values)) over_width
      ensure (ltb (length values * bit_width) (2 ^ 64))
          (invalid_input "bit-packed output length overflow")
      ok (
          flush (
            push_values bit_width values
              (record { out = []; current_byte = 0; bits_in_current_byte = 0 })))) in
    validate_bit_width bit_width
    >> (if no_bits values bit_width
        then (if any_over 0 values then err zero_bits else ok [])
        else packed)

unfoldable pub reject_non_zero_padding : List ℕ → ℕ → Result (Unit {0})
reject_non_zero_padding bytes used_bits =
    if length bytes * 8 - used_bits == 0
    then ok tt
    else (let mask = if used_bits % 8 == 0 then 0 else padding_mask (used_bits % 8) in
        ensure (bit_and (last_or bytes 0) mask == 0) non_zero_padding)

-- `(source_byte >> (bit_offset % 8)) & 1`
abbrev pub source_bit : List ℕ → ℕ → ℕ
source_bit bytes bit_offset = bit_and (get_or bytes (bit_offset / 8) 0 / 2 ^ (bit_offset % 8)) 1

-- The inner loop of `decode_u64`, with `count` bits to go.
unfoldable pub read_value : List ℕ → ℕ → ℕ → ℕ → ℕ → ℕ
read_value bytes zero bit_index bit_offset value = value
read_value bytes (suc count) bit_index bit_offset value =
    read_value bytes count (bit_index + 1) (bit_offset + 1)
      (bit_or value (source_bit bytes bit_offset * 2 ^ bit_index % 2 ^ 64))

unfoldable pub read_values : List ℕ → ℕ → ℕ → ℕ → List ℕ
unfolding read_value
read_values bytes bit_width zero bit_offset = []
read_values bytes bit_width (suc count) bit_offset =
    read_value bytes bit_width 0 bit_offset 0
    ∷ read_values bytes bit_width count (bit_offset + bit_width)

unfoldable pub decode_u64 : List ℕ → ℕ → ℕ → Result (List ℕ)
unfolding validate_bit_width reject_non_zero_padding read_values
decode_u64 bytes bit_width value_count =
    let total_bits = value_count * bit_width in
    let unpacked = (do
      reject_non_zero_padding bytes total_bits
      ok (read_values bytes bit_width value_count 0)) in
    (do
      validate_bit_width bit_width
      ensure (not (ltb max_decoded_values value_count))
          (invalid_input "bit-packed value count exceeds configured limit")
      ensure (ltb total_bits (2 ^ 64)) (invalid_input "bit-packed input length overflow")
      ensure (length bytes == byte_count total_bits) wrong_length
      if bit_width == 0 then ok (replicate value_count 0) else unpacked)
