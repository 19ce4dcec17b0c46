-- ===== src/Primitives/Rle.antt =====
-- crates/compact-core/src/primitives/rle.rs: `[count][byte]` pairs.
pub mod Runs
pub mod RoundTrip
pub mod Decoder
mod Tests
use compact_core.Common.{
  ℕ, zero, suc, ◌+◌, ◌*◌, ◌%◌, ◌^◌, List, [], ◌∷◌, ◌++◌, not, ◌&&◌, ltb, ◌==◌, if◌then◌else◌,
  length, replicate, Result, ok, err, ◌>>=◌, ◌>>◌, ensure, CompactError, invalid_input,
}

-- crates/compact-core/src/limits.rs
abbrev pub max_decoded_bytes : ℕ
max_decoded_bytes = 256 * 1024 * 1024

abbrev pub odd_length : CompactError
odd_length = invalid_input "RLE data must have even length (count, value) pairs"

abbrev pub zero_count : CompactError
zero_count = invalid_input "RLE run count of 0 is invalid"

abbrev pub length_overflow : CompactError
length_overflow = invalid_input "RLE decoded length overflow"

abbrev pub over_limit : CompactError
over_limit = invalid_input "RLE decoded length exceeds configured limit"

-- The inner `while`: the count that the run of `byte` reaches, and `data[i + count..]` behind it.
pub extend_run : ℕ → List ℕ → ℕ → ℕ × List ℕ
extend_run byte [] count = (count, [])
extend_run byte (next ∷ rest) count =
    let more = extend_run byte rest (count + 1) in
    if next == byte && ltb count 255 then more else (count, next ∷ rest)

-- The outer `while`, on the bytes from `i` on. Each round takes a byte at least, so as many rounds
-- as there are bytes are enough.
pub encode_loop : ℕ → List ℕ → List ℕ
encode_loop fuel [] = []
encode_loop zero (byte ∷ rest) = []
encode_loop (suc fuel) (byte ∷ rest) =
    let (count, behind) = extend_run byte rest 1 in count % 256 ∷ byte ∷ encode_loop fuel behind

unfoldable pub encode_rle : List ℕ → List ℕ
unfolding encode_loop extend_run
encode_rle bytes = encode_loop (length bytes) bytes

-- The first pass over `data.chunks_exact(2)`, which adds the counts up.
pub scan_counts : ℕ → ℕ → List ℕ → Result ℕ
scan_counts limit estimated [] = ok estimated
scan_counts limit estimated (odd ∷ []) = ok estimated
scan_counts limit estimated (count ∷ value ∷ rest) = do
  ensure (not (count == 0)) zero_count
  ensure (ltb (estimated + count) (2 ^ 64)) length_overflow
  ensure (not (ltb limit (estimated + count))) over_limit
  scan_counts limit (estimated + count) rest

-- The second pass, which writes the runs.
pub expand : List ℕ → List ℕ
expand [] = []
expand (odd ∷ []) = []
expand (count ∷ value ∷ rest) = replicate count value ++ expand rest

unfoldable pub decode_rle_bounded : List ℕ → ℕ → Result (List ℕ)
unfolding scan_counts expand
decode_rle_bounded bytes max_output_len = do
  ensure (length bytes % 2 == 0) odd_length
  estimated_size ← scan_counts max_output_len 0 bytes
  ok (expand bytes)

unfoldable pub decode_rle : List ℕ → Result (List ℕ)
unfolding decode_rle_bounded
decode_rle bytes = decode_rle_bounded bytes max_decoded_bytes
