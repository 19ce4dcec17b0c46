-- ===== src/Search/Query/Ranking.antt =====
-- `top_k_by_term_frequency` against the lists that were encoded.
use compact_core.Common.{
  ℕ, suc, ◌+◌, ◌^◌, ◌≤◌, ◌<◌, ◌≡◌, refl, ◌∙◌, arith, List, [], ◌∷◌, true, false, ◌==◌,
  if◌then◌else◌, Bool-cases, inl, inr, length, take, All, IsU32, IsU64, ok,
}
use compact_core.Search.Dictionary.{TermPostingList, encode_dictionary}
use compact_core.Search.Dictionary.Entries.{WellTyped}
use compact_core.Search.Dictionary.Lookup.{SizedList}
use compact_core.Search.Postings.{Posting}
use compact_core.Search.Postings.Decode.{max_collection_entries}
use compact_core.Search.Query.{
  TopKHit, add_score, score_postings, ranks_before, insert_hit, sort_hits, score_terms,
  top_k_by_term_frequency,
}
use compact_core.Search.Query.Conjunction.{postings_for, found_term}

-- The score of a document in a list of hits, and how often it is there.
abbrev pub score_of : ℕ → List TopKHit → ℕ
score_of d [] = 0
score_of d (h ∷ hs) = (if h.doc_id == d then h.score else 0) + score_of d hs

abbrev pub count_of : ℕ → List TopKHit → ℕ
count_of d [] = 0
count_of d (h ∷ hs) = (if h.doc_id == d then 1 else 0) + count_of d hs

-- The positions of a document in a posting list.
abbrev pub frequency : ℕ → List Posting → ℕ
frequency d [] = 0
frequency d (p ∷ ps) = (if p.doc_id == d then length p.positions else 0) + frequency d ps

-- A document has one hit, or none where its score is 0.
abbrev Once : ℕ → ℕ → List TopKHit → Type 0
Once d score hits = (score_of d hits ≡ score) × (count_of d hits ≡ (if score == 0 then 0 else 1))

add_score-score_of :
    (d id s : ℕ) (hits : List TopKHit)
    → score_of d (add_score id s hits) ≡ (if id == d then s else 0) + score_of d hits
unfolding add_score
add_score-score_of d id s [] = refl
add_score-score_of d id s (h ∷ hits) = ground (arith, add_score-score_of d id s hits)

abbrev at_least_one : ℕ → ℕ
at_least_one n = if n == 0 then 1 else n

add_score-count_of :
    (d id s : ℕ) (hits : List TopKHit)
    → count_of d (add_score id s hits)
      ≡ (if id == d then at_least_one (count_of d hits) else count_of d hits)
unfolding add_score
add_score-count_of d id s [] = ground arith
add_score-count_of d id s (h ∷ hits) = ground (arith, add_score-count_of d id s hits)

abbrev scored_if : ℕ → ℕ → List TopKHit → List TopKHit
scored_if id s hits = if s == 0 then hits else add_score id s hits

scored_if-Once :
    (d id s score : ℕ) (hits : List TopKHit)
    → Once d score hits
    → Once d (score + (if id == d then s else 0)) (scored_if id s hits)
scored_if-Once d id s score hits once =
    ground (arith, add_score-score_of d id s hits, add_score-count_of d id s hits)

score_postings-Once :
    (d : ℕ) (ps : List Posting) (score total : ℕ) (hits : List TopKHit)
    → total ≡ score + frequency d ps
    → Once d score hits
    → Once d total (score_postings ps hits)
unfolding score_postings
score_postings-Once d [] score total hits e once = ground arith
score_postings-Once d (p ∷ ps) score total hits e once =
    let s = length p.positions in
    score_postings-Once d ps (score + (if p.doc_id == d then s else 0)) total
      (scored_if p.doc_id s hits) (omega arith) (scored_if-Once d p.doc_id s score hits once)

-- Each hit is followed by one that does not rank before it.
abbrev Next : TopKHit → List TopKHit → Type 0
Next h [] = Unit
Next h (g ∷ hits) = ranks_before g h ≡ false

abbrev pub IsRanked : List TopKHit → Type 0
IsRanked [] = Unit
IsRanked (h ∷ hits) = Next h hits × IsRanked hits

insert_hit-Next :
    (h f : TopKHit) (hits : List TopKHit)
    → Next f hits
    → ranks_before h f ≡ false
    → Next f (insert_hit h hits)
unfolding insert_hit
insert_hit-Next h f [] next below = below
insert_hit-Next h f (g ∷ hits) next below = elim (Bool-cases (ranks_before g h)) [
  | inl before ↦ rw (before) next
  | inr behind ↦ rw (behind) below
]

ranks_before_asym : (a b : TopKHit) → ranks_before a b ≡ true → ranks_before b a ≡ false
ranks_before_asym a b h = ground arith

insert_hit-IsRanked :
    (h : TopKHit) (hits : List TopKHit) → IsRanked hits → IsRanked (insert_hit h hits)
unfolding insert_hit
insert_hit-IsRanked h [] ranked = (tt, tt)
insert_hit-IsRanked h (g ∷ hits) (next, ranked) = elim (Bool-cases (ranks_before g h)) [
  | inl before ↦ rw (before) (
    insert_hit-Next h g hits next (ranks_before_asym g h before),
    insert_hit-IsRanked h hits ranked,
  )
  | inr behind ↦ rw (behind) (behind, (next, ranked))
]

sort_hits-IsRanked : (hits : List TopKHit) → IsRanked (sort_hits hits)
unfolding sort_hits
sort_hits-IsRanked [] = tt
sort_hits-IsRanked (h ∷ hits) = insert_hit-IsRanked h (sort_hits hits) (sort_hits-IsRanked hits)

insert_hit-sums :
    (d : ℕ) (h : TopKHit) (hits : List TopKHit)
    → (score_of d (insert_hit h hits) ≡ score_of d (h ∷ hits))
      × (count_of d (insert_hit h hits) ≡ count_of d (h ∷ hits))
unfolding insert_hit
insert_hit-sums d h [] = (refl, refl)
insert_hit-sums d h (g ∷ hits) =
    let (scores, counts) = insert_hit-sums d h hits in
    elim (Bool-cases (ranks_before g h)) [
      | inl before ↦ rw (before) (omega (arith, scores), omega (arith, counts))
      | inr behind ↦ rw (behind) (refl, refl)
    ]

sort_hits-sums :
    (d : ℕ) (hits : List TopKHit)
    → (score_of d (sort_hits hits) ≡ score_of d hits)
      × (count_of d (sort_hits hits) ≡ count_of d hits)
unfolding sort_hits
sort_hits-sums d [] = (refl, refl)
sort_hits-sums d (h ∷ hits) =
    let (scores, counts) = insert_hit-sums d h (sort_hits hits) in
    let (scores', counts') = sort_hits-sums d hits in
    (omega (arith, scores, scores'), omega (arith, counts, counts'))

-- The frequencies of a document in the lists of all terms.
abbrev pub total_frequency : List TermPostingList → ℕ → List (List ℕ) → ℕ
total_frequency es d [] = 0
total_frequency es d (term ∷ terms) =
    frequency d (postings_for es term) + total_frequency es d terms

scored : List TermPostingList → List (List ℕ) → List TopKHit → List TopKHit
scored es [] hits = hits
scored es (term ∷ terms) hits = scored es terms (score_postings (postings_for es term) hits)

scored-Once :
    (es : List TermPostingList) (d : ℕ) (terms : List (List ℕ)) (score total : ℕ)
    (hits : List TopKHit)
    → total ≡ score + total_frequency es d terms
    → Once d score hits
    → Once d total (scored es terms hits)
unfolding scored
scored-Once es d [] score total hits e once = ground arith
scored-Once es d (term ∷ terms) score total hits e once =
    let list = postings_for es term in
    scored-Once es d terms (score + frequency d list) total (score_postings list hits) (omega arith)
      (score_postings-Once d list score (score + frequency d list) hits refl once)

module _ (hash : List ℕ → ℕ) (step : ℕ) (es : List TermPostingList) (bytes : List ℕ)
    (word : (body : List ℕ) → IsU32 (hash body)) (step_word : IsU64 step) (typed : All WellTyped es)
    (sized : All SizedList es) (few : length es ≤ max_collection_entries)
    (fits : length bytes < 2 ^ 64) (encoded : encode_dictionary hash es step ≡ ok bytes) where
  score_terms-scored :
      (terms : List (List ℕ)) (hits : List TopKHit)
      → score_terms hash bytes terms hits ≡ ok (scored es terms hits)
  unfolding score_terms scored
  score_terms-scored [] hits = refl
  score_terms-scored (term ∷ terms) hits =
      rw (found_term hash step es bytes word step_word typed sized few fits encoded term)
        (score_terms-scored terms (score_postings (postings_for es term) hits))

  -- On a dictionary that `encode_dictionary` wrote, `top_k_by_term_frequency` of one term or more and
  -- of one document or more returns the first `k` of a ranking: from the highest score, then from the
  -- lowest docID. In the ranking each document that has a position under one of the terms stands once,
  -- with its positions under all of them as score, and no other document. The conditions are those of
  -- `lookup_term-encode_dictionary`.
  pub top_k_by_term_frequency-ranking :
      (term : List ℕ) (terms : List (List ℕ)) (k : ℕ)
      → (ranking : List TopKHit) × (top_k_by_term_frequency hash bytes (term ∷ terms) (suc k)
          ≡ ok (take (suc k) ranking))
        × IsRanked ranking
        × ((d : ℕ)
            → (score_of d ranking ≡ total_frequency es d (term ∷ terms))
              × (count_of d ranking ≡ (if total_frequency es d (term ∷ terms) == 0 then 0 else 1)))
  unfolding top_k_by_term_frequency
  top_k_by_term_frequency-ranking term terms k =
      let hits = scored es (term ∷ terms) [] in
      (
        sort_hits hits,
        rw (score_terms-scored (term ∷ terms) []) refl,
        sort_hits-IsRanked hits,
        λ d.
            let (score, count) =
              scored-Once es d (term ∷ terms) 0 (total_frequency es d (term ∷ terms)) []
                (omega arith) (refl, refl) in
            let (same, same') = sort_hits-sums d hits in (same ∙ score, same' ∙ count),
      )
