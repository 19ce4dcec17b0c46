-- ===== src/Statistics/RoundTrip.antt =====
-- The decoder reads exactly what the encoders write.
use compact_core.Common.{
  ℕ, ◌+◌, ◌≤◌, ◌≡◌, refl, sym, ap, ap₂, ◌∙◌, arith, List, [], ◌∷◌, ◌++◌, some, none, length, take,
  drop, to_le_bytes, from_le_bytes, length-to_le_bytes, from_le_bytes-to_le_bytes,
  to_le_bytes-from_le_bytes, from_le_bytes-lt, length-append, length-take, length-drop,
  take-append-drop, take-append_exact, drop-append_exact, All, IsByte, IsU64, All-take, All-drop,
  ok, ◌↔◌,
}
use compact_core.Statistics.{
  ColumnStatistics, absent, u64, bool, string, encode_u64, encode_bool, encode_string, decode,
}

-- The encoder of each kind of statistics.
unfoldable pub encode : ColumnStatistics → List ℕ
unfolding encode_u64 encode_bool encode_string
encode absent = encode_u64 none none
encode (u64 min max) = encode_u64 (some min) (some max)
encode (bool true_count) = encode_bool true_count
encode (string distinct_count) = encode_string distinct_count

-- Values that a column can have: u64 counts, and a minimum that is not above the maximum.
abbrev pub IsSound : ColumnStatistics → Type 0
IsSound absent = Unit
IsSound (u64 min max) = IsU64 max × (min ≤ max)
IsSound (bool true_count) = IsU64 true_count
IsSound (string distinct_count) = IsU64 distinct_count

decode-encode : (s : ColumnStatistics) → IsSound s → decode (encode s) ≡ ok s
unfolding decode encode
decode-encode absent h = refl
decode-encode (u64 min max) h =
    let low = to_le_bytes 8 min in
    let high = to_le_bytes 8 max in
    let low_size : length low ≡ 8 = length-to_le_bytes 8 min in
    let size : length (low ++ high) ≡ 16 =
      length-append low high ∙ ap₂ ◌+◌ low_size (length-to_le_bytes 8 max) in
    let at_min : from_le_bytes (take 8 (low ++ high)) ≡ min =
      ap from_le_bytes (take-append_exact 8 low high low_size)
      ∙ from_le_bytes-to_le_bytes 8 min (omega arith) in
    let at_max : from_le_bytes (drop 8 (low ++ high)) ≡ max =
      ap from_le_bytes (drop-append_exact 8 low high low_size)
      ∙ from_le_bytes-to_le_bytes 8 max h.0 in
    ground arith
decode-encode (bool true_count) h =
    ground (arith, length-to_le_bytes 8 true_count, from_le_bytes-to_le_bytes 8 true_count h)
decode-encode (string distinct_count) h =
    ground
      (arith, length-to_le_bytes 8 distinct_count, from_le_bytes-to_le_bytes 8 distinct_count h)

word_bytes :
    (rest : List ℕ) → All IsByte rest → length rest ≡ 8 → to_le_bytes 8 (from_le_bytes rest) ≡ rest
word_bytes rest octets size =
    ap (λ n. to_le_bytes n (from_le_bytes rest)) (sym size) ∙ to_le_bytes-from_le_bytes rest octets

word_lt : (rest : List ℕ) → All IsByte rest → length rest ≡ 8 → IsU64 (from_le_bytes rest)
word_lt rest octets size = rw size at (from_le_bytes-lt rest octets)

range_checks :
    (tag : ℕ) (rest : List ℕ) (min max : ℕ)
    → decode (tag ∷ rest) ≡ ok (u64 min max)
    → (tag ≡ 1)
      × (length rest ≡ 16)
      × (from_le_bytes (take 8 rest) ≡ min)
      × (from_le_bytes (drop 8 rest) ≡ max)
      × (min ≤ max)
unfolding decode
range_checks tag rest min max h = ground arith

bool_checks :
    (tag : ℕ) (rest : List ℕ) (count : ℕ)
    → decode (tag ∷ rest) ≡ ok (bool count)
    → (tag ≡ 2) × (length rest ≡ 8) × (from_le_bytes rest ≡ count)
unfolding decode
bool_checks tag rest count h = ground arith

string_checks :
    (tag : ℕ) (rest : List ℕ) (count : ℕ)
    → decode (tag ∷ rest) ≡ ok (string count)
    → (tag ≡ 3) × (length rest ≡ 8) × (from_le_bytes rest ≡ count)
unfolding decode
string_checks tag rest count h = ground arith

absent_checks :
    (tag : ℕ) (rest : List ℕ) → decode (tag ∷ rest) ≡ ok absent → (tag ≡ 0) × (length rest ≡ 0)
unfolding decode
absent_checks tag rest h = ground arith

length-zero : (xs : List ℕ) → length xs ≡ 0 → xs ≡ []
length-zero [] e = refl
length-zero (x ∷ xs) e = absurd (omega arith)

encode-decode :
    (bytes : List ℕ) (s : ColumnStatistics)
    → All IsByte bytes
    → decode bytes ≡ ok s
    → (bytes ≡ encode s) × IsSound s
unfolding encode
encode-decode [] s octets h = absurd (unfold decode in cc)
encode-decode (tag ∷ rest) absent octets h =
    let (tagged, size) = absent_checks tag rest h in (ap₂ ◌∷◌ tagged (length-zero rest size), tt)
encode-decode (tag ∷ rest) (u64 min max) octets h =
    let (tagged, size, at_min, at_max, order) = range_checks tag rest min max h in
    let low_octets = All-take IsByte 8 rest octets.1 in
    let high_octets = All-drop IsByte 8 rest octets.1 in
    let low_size : length (take 8 rest) ≡ 8 = omega (arith, length-take 8 rest) in
    let high_size : length (drop 8 rest) ≡ 8 = omega (arith, length-drop 8 rest) in
    let low : take 8 rest ≡ to_le_bytes 8 min =
      sym (word_bytes (take 8 rest) low_octets low_size) ∙ ap (to_le_bytes 8) at_min in
    let high : drop 8 rest ≡ to_le_bytes 8 max =
      sym (word_bytes (drop 8 rest) high_octets high_size) ∙ ap (to_le_bytes 8) at_max in
    (
      ap₂ ◌∷◌ tagged (sym (take-append-drop 8 rest) ∙ ap₂ ◌++◌ low high),
      (omega (arith, word_lt (drop 8 rest) high_octets high_size), order),
    )
encode-decode (tag ∷ rest) (bool count) octets h =
    let (tagged, size, at) = bool_checks tag rest count h in
    (
      ap₂ ◌∷◌ tagged (sym (word_bytes rest octets.1 size) ∙ ap (to_le_bytes 8) at),
      omega (arith, word_lt rest octets.1 size),
    )
encode-decode (tag ∷ rest) (string count) octets h =
    let (tagged, size, at) = string_checks tag rest count h in
    (
      ap₂ ◌∷◌ tagged (sym (word_bytes rest octets.1 size) ∙ ap (to_le_bytes 8) at),
      omega (arith, word_lt rest octets.1 size),
    )

-- The decoder returns statistics exactly on the bytes that the encoder of their kind writes for them,
-- and only sound ones: u64 counts, a minimum not above the maximum.
pub decode_iff :
    (bytes : List ℕ) (s : ColumnStatistics)
    → All IsByte bytes
    → (decode bytes ≡ ok s) ↔ ((bytes ≡ encode s) × IsSound s)
decode_iff bytes s octets = (encode-decode bytes s octets, λ p. ap decode p.0 ∙ decode-encode s p.1)
