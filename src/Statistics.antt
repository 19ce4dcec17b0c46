-- ===== src/Statistics.antt =====
-- crates/compact-core/src/statistics.rs: the statistics of a CMP3 column.
pub mod RoundTrip
mod Tests
use compact_core.Common.{
  ℕ, List, [], ◌∷◌, ◌++◌, Option, none, some, ltb, ◌==◌, if◌then◌else◌, length, take, drop,
  to_le_bytes, from_le_bytes, Result, ok, err, CompactError, invalid_input,
}

pub data ColumnStatistics : Type 0 where
  absent : ColumnStatistics
  u64 : (min max : ℕ) → ColumnStatistics
  bool : (true_count : ℕ) → ColumnStatistics
  string : (distinct_count : ℕ) → ColumnStatistics

abbrev none_tag : ℕ
none_tag = 0

abbrev u64_range : ℕ
u64_range = 1

abbrev bool_counts : ℕ
bool_counts = 2

abbrev string_cardinality : ℕ
string_cardinality = 3

unfoldable pub encode_u64 : Option ℕ → Option ℕ → List ℕ
encode_u64 (some min) (some max) = u64_range ∷ (to_le_bytes 8 min ++ to_le_bytes 8 max)
encode_u64 min max = none_tag ∷ []

unfoldable pub encode_bool : ℕ → List ℕ
encode_bool true_count = bool_counts ∷ to_le_bytes 8 true_count

unfoldable pub encode_string : ℕ → List ℕ
encode_string distinct_count = string_cardinality ∷ to_le_bytes 8 distinct_count

abbrev pub min_over_max : CompactError
min_over_max = invalid_input "cmp3 u64 statistics min exceeds max"

abbrev pub invalid_metadata : CompactError
invalid_metadata = invalid_input "invalid cmp3 statistics metadata"

-- The arm of `[U64_RANGE, rest @ ..]`.
decode_range : List ℕ → Result ColumnStatistics
decode_range rest =
    let min = from_le_bytes (take 8 rest) in
    let max = from_le_bytes (drop 8 rest) in
    if ltb max min then err min_over_max else ok (u64 min max)

decode_tagged : ℕ → List ℕ → Result ColumnStatistics
decode_tagged tag rest =
    if tag == none_tag
    then (if length rest == 0 then ok absent else err invalid_metadata)
    else if tag == u64_range
    then (if length rest == 16 then decode_range rest else err invalid_metadata)
    else if tag == bool_counts
    then (if length rest == 8 then ok (bool (from_le_bytes rest)) else err invalid_metadata)
    else if tag == string_cardinality
    then (if length rest == 8 then ok (string (from_le_bytes rest)) else err invalid_metadata)
    else err invalid_metadata

unfoldable pub decode : List ℕ → Result ColumnStatistics
unfolding decode_tagged decode_range
decode [] = err invalid_metadata
decode (tag ∷ rest) = decode_tagged tag rest
