-- ===== src/Primitives/Zigzag.antt =====
-- crates/compact-core/src/primitives/zigzag.rs. An `i64` is an integer in range.
pub mod RoundTrip
mod Tests
use compact_core.Common.{ℕ, zero, suc, ◌*◌, ◌/◌, ◌%◌, ◌^◌, bit_and, bit_xor, List, map}
use compact_core.Common.Int.{ℤ, pos, negsuc, as_u64, as_i64}

-- `value >> k` on i64: the arithmetic shift, which rounds down.
abbrev shift_right : ℤ → ℕ → ℤ
shift_right (pos n) k = pos (n / 2 ^ k)
shift_right (negsuc n) k = negsuc (n / 2 ^ k)

abbrev negate : ℤ → ℤ
negate (pos zero) = pos 0
negate (pos (suc n)) = negsuc n
negate (negsuc n) = pos (suc n)

unfoldable pub encode_i64 : ℤ → ℕ
unfolding as_u64
encode_i64 value = bit_xor (as_u64 value * 2 % 2 ^ 64) (as_u64 (shift_right value 63))

unfoldable pub decode_u64 : ℕ → ℤ
unfolding as_u64 as_i64
decode_u64 value =
    as_i64 (bit_xor (as_u64 (as_i64 (value / 2))) (as_u64 (negate (as_i64 (bit_and value 1)))))

unfoldable pub encode_i64_slice : List ℤ → List ℕ
encode_i64_slice values = map encode_i64 values

unfoldable pub decode_u64_slice : List ℕ → List ℤ
decode_u64_slice values = map decode_u64 values
