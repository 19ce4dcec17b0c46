-- ===== src/Search/Query/Tests.antt =====
-- The source's tests in small, and the theorems at concrete inputs.
use compact_core.Common.{
  ℕ, ◌≡◌, refl, arith, List, [], ◌∷◌, true, false, ok, ◌==◌, if◌then◌else◌, take, to_le_bytes,
  from_le_bytes, bytes_eq,
}
use compact_core.Framing.{checksum}
use compact_core.Primitives.Varint.{read_u64}
use compact_core.Common.Text.{is_utf8, text_ltb}
use compact_core.Search.Postings.{validate_postings}
use compact_core.Search.Postings.Decode.{decode_postings, seek_doc}
use compact_core.Search.Dictionary.Read.{lookup_term, seek_term_doc}
use compact_core.Search.Dictionary.Samples.{
  sum, sum-IsU32, ab, ac, entries, entries_bytes, entries_encoded, entries-WellTyped,
  entries-SizedList,
}
use compact_core.Search.Query.{
  TopKHit, term_doc_ids, and_doc_ids, has_adjacent_phrase, top_k_by_term_frequency,
  term_contains_doc, has_position, in_all,
}
use compact_core.Search.Query.Conjunction.{lists_for, and_doc_ids-in_all}
use compact_core.Search.Query.Ranking.{
  IsRanked, score_of, count_of, total_frequency, top_k_by_term_frequency-ranking,
}

queries :
    (term_doc_ids sum entries_bytes ab ≡ ok (1 ∷ 3 ∷ []))
    × (and_doc_ids sum entries_bytes (ab ∷ ac ∷ []) ≡ ok (3 ∷ []))
    × (and_doc_ids sum entries_bytes (ab ∷ (b'z' ∷ []) ∷ []) ≡ ok [])
    × (has_adjacent_phrase sum entries_bytes ab ac 3 ≡ ok false)
    × (top_k_by_term_frequency sum entries_bytes (ab ∷ ac ∷ []) 1
        ≡ ok (record { doc_id = 1; score = 2 } ∷ []))
    × (term_contains_doc sum entries_bytes ac 3 ≡ ok true)
unfolding term_doc_ids and_doc_ids has_adjacent_phrase top_k_by_term_frequency term_contains_doc
    lookup_term seek_term_doc decode_postings seek_doc text_ltb validate_postings to_le_bytes
    bytes_eq checksum from_le_bytes read_u64 is_utf8
queries = (refl, refl, refl, refl, refl, refl)

and_doc_ids-in_all_example :
    (ids : List ℕ) × (and_doc_ids sum entries_bytes (ab ∷ ac ∷ []) ≡ ok ids)
    × ((d : ℕ) → has_position d ids ≡ in_all d (lists_for entries (ab ∷ ac ∷ [])))
and_doc_ids-in_all_example =
    and_doc_ids-in_all sum 2 entries entries_bytes sum-IsU32 (omega arith) entries-WellTyped
      entries-SizedList (omega arith) (omega arith) entries_encoded ab (ac ∷ [])

top_k_by_term_frequency-ranking_example :
    (ranking : List TopKHit) × (top_k_by_term_frequency sum entries_bytes (ab ∷ ac ∷ []) 2
      ≡ ok (take 2 ranking))
    × IsRanked ranking
    × ((d : ℕ)
        → (score_of d ranking ≡ total_frequency entries d (ab ∷ ac ∷ []))
          × (count_of d ranking ≡ (if total_frequency entries d (ab ∷ ac ∷ []) == 0 then 0 else 1)))
top_k_by_term_frequency-ranking_example =
    top_k_by_term_frequency-ranking sum 2 entries entries_bytes sum-IsU32 (omega arith)
      entries-WellTyped entries-SizedList (omega arith) (omega arith) entries_encoded ab (ac ∷ []) 1
