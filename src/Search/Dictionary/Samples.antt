-- ===== src/Search/Dictionary/Samples.antt =====
-- A dictionary for the tests of this component and of the queries, with a checksum.
use compact_core.Common.{
  ℕ, ◌+◌, ◌%◌, ◌^◌, ◌≡◌, refl, arith, List, [], ◌∷◌, ok, to_le_bytes, All, IsU32,
}
use compact_core.Framing.{checksum}
use compact_core.Primitives.Varint.{encode_u64}
use compact_core.Common.Text.{is_utf8, text_ltb}
use compact_core.Search.Postings.{Posting, encode_postings, validate_postings}
use compact_core.Search.Dictionary.{TermPostingList, encode_dictionary, validate_terms}
use compact_core.Search.Dictionary.Entries.{WellTyped}
use compact_core.Search.Dictionary.Lookup.{SizedList}

abbrev pub sum : List ℕ → ℕ
sum [] = 0
sum (b ∷ bytes) = (b + sum bytes) % 2 ^ 32

pub sum-IsU32 : (bytes : List ℕ) → IsU32 (sum bytes)
sum-IsU32 [] = omega arith
sum-IsU32 (b ∷ bytes) = omega arith

abbrev pub posting : ℕ → List ℕ → Posting
posting doc_id positions = record { doc_id = doc_id; positions = positions }

abbrev pub ab : List ℕ
ab = b'a' ∷ b'b' ∷ []

abbrev pub ac : List ℕ
ac = b'a' ∷ b'c' ∷ []

abbrev pub entries : List TermPostingList
entries =
    record { term = ab; postings = posting 1 (0 ∷ 8 ∷ []) ∷ posting 3 [] ∷ [] }
    ∷ record { term = ac; postings = posting 3 (2 ∷ []) ∷ [] }
    ∷ []

abbrev pub entries_bytes : List ℕ
entries_bytes =
    84 ∷ 82 ∷ 77 ∷ 49 ∷ 1 ∷ 213 ∷ 4 ∷ 0 ∷ 0 ∷ 2 ∷ 12 ∷ 51 ∷ 2 ∷ 97 ∷ 98 ∷ 0 ∷ 27 ∷ 2 ∷ 2 ∷ 97 ∷ 99
    ∷ 27 ∷ 24 ∷ 1 ∷ 80 ∷ 83 ∷ 84 ∷ 49 ∷ 1 ∷ 30 ∷ 0 ∷ 0 ∷ 0 ∷ 2 ∷ 2 ∷ 2 ∷ 2 ∷ 2 ∷ 6 ∷ 1 ∷ 2 ∷ 2 ∷ 0
    ∷ 0 ∷ 8 ∷ 0 ∷ 1 ∷ 0 ∷ 0 ∷ 0 ∷ 0 ∷ 80 ∷ 83 ∷ 84 ∷ 49 ∷ 1 ∷ 21 ∷ 0 ∷ 0 ∷ 0 ∷ 1 ∷ 2 ∷ 1 ∷ 1 ∷ 1 ∷ 6
    ∷ 3 ∷ 1 ∷ 2 ∷ 0 ∷ 3 ∷ 0 ∷ 0 ∷ 0 ∷ 0 ∷ []

pub entries_encoded : encode_dictionary sum entries 2 ≡ ok entries_bytes
unfolding encode_dictionary encode_postings validate_terms text_ltb validate_postings to_le_bytes
    encode_u64 checksum
entries_encoded = refl

pub entries-WellTyped : All WellTyped entries
unfolding is_utf8
entries-WellTyped = ((refl, omega arith), ((refl, omega arith), tt))

pub entries-SizedList : All SizedList entries
entries-SizedList = (
  (
    (
      (omega arith, (omega arith, (omega arith, tt)), omega arith),
      ((omega arith, tt, omega arith), tt),
    ),
    omega arith,
  ),
  ((((omega arith, (omega arith, tt), omega arith), tt), omega arith), tt),
)
