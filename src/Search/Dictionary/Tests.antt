-- ===== src/Search/Dictionary/Tests.antt =====
-- The source's tests, and the theorems at concrete inputs.
use compact_core.Common.{
  ◌≡◌, refl, arith, [], ◌∷◌, none, some, true, false, ok, err, ◌>>=◌, to_le_bytes, from_le_bytes,
  bytes_eq,
}
use compact_core.Framing.{checksum}
use compact_core.Primitives.Varint.{encode_u64, read_u64}
use compact_core.Common.Text.{is_utf8, text_ltb}
use compact_core.Search.Postings.{encode_postings, validate_postings}
use compact_core.Search.Postings.Decode.{decode_postings, seek_doc}
use compact_core.Search.Postings.Seek.{find_doc}
use compact_core.Search.Dictionary.Samples.{
  sum, sum-IsU32, posting, ab, ac, entries, entries_bytes, entries_encoded, entries-WellTyped,
  entries-SizedList,
}
use compact_core.Search.Dictionary.{encode_dictionary, empty_term, falling_terms, validate_terms}
use compact_core.Search.Dictionary.Read.{lookup_term, seek_term_doc, flatten}
use compact_core.Search.Dictionary.Lookup.{
  find_postings, lookup_term-encode_dictionary, seek_term_doc-encode_dictionary,
}
use mathlib.Core.Option

lookup_term-encode_dictionary_example :
    lookup_term sum entries_bytes ac ≡ ok (find_postings ac entries)
lookup_term-encode_dictionary_example =
    lookup_term-encode_dictionary sum 2 entries entries_bytes ac sum-IsU32 (omega arith)
      entries-WellTyped entries-SizedList (omega arith) (omega arith) entries_encoded

seek_term_doc-encode_dictionary_example :
    seek_term_doc sum entries_bytes ab 3
    ≡ ok (flatten (Option.map (find_doc 3) (find_postings ab entries)))
seek_term_doc-encode_dictionary_example =
    seek_term_doc-encode_dictionary sum 2 entries entries_bytes ab sum-IsU32 (omega arith)
      entries-WellTyped entries-SizedList (omega arith) (omega arith) entries_encoded 3

sample_lookups :
    ((do bytes ← encode_dictionary sum entries 2; lookup_term sum bytes ac)
      ≡ ok (some (posting 3 (2 ∷ []) ∷ [])))
    × ((do bytes ← encode_dictionary sum entries 2; lookup_term sum bytes (b'z' ∷ [])) ≡ ok none)
    × ((do bytes ← encode_dictionary sum entries 2; seek_term_doc sum bytes ab 3)
        ≡ ok (some (posting 3 [])))
unfolding encode_dictionary lookup_term seek_term_doc encode_postings decode_postings seek_doc
    validate_terms text_ltb validate_postings to_le_bytes encode_u64 bytes_eq checksum from_le_bytes
    read_u64 is_utf8
sample_lookups = (refl, refl, refl)

refusals :
    (encode_dictionary sum (record { term = []; postings = [] } ∷ []) 2 ≡ err empty_term)
    × (encode_dictionary sum
          (record { term = ac; postings = [] } ∷ record { term = ab; postings = [] } ∷ [])
          2
        ≡ err falling_terms)
unfolding encode_dictionary validate_terms text_ltb
refusals = (refl, refl)

-- An overlong form, a surrogate and a cut sequence are refused; a text of all four lengths is not.
utf8_samples :
    (is_utf8 (0xc0 ∷ 0x80 ∷ []) ≡ false)
    × (is_utf8 (0xed ∷ 0xa0 ∷ 0x80 ∷ []) ≡ false)
    × (is_utf8 (0xe2 ∷ 0x82 ∷ []) ≡ false)
    × (is_utf8 (0x24 ∷ 0xc2 ∷ 0xa2 ∷ 0xe2 ∷ 0x82 ∷ 0xac ∷ 0xf0 ∷ 0x9f ∷ 0x98 ∷ 0x80 ∷ []) ≡ true)
unfolding is_utf8
utf8_samples = (refl, refl, refl, refl)
