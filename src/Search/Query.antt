-- ===== src/Search/Query.antt =====
-- crates/compact-core/src/search/query.rs: queries over a dictionary block. `hash` is
-- `crc32fast::hash`.
pub mod Conjunction
pub mod Ranking
mod Tests
use compact_core.Common.{
  ℕ, zero, suc, ◌+◌, ◌^◌, List, [], ◌∷◌, Bool, true, false, ◌&&◌, ◌||◌, Option, none, some, ltb,
  leb, ◌==◌, if◌then◌else◌, length, take, map, Result, ok, err, ◌>>=◌,
}
use compact_core.Search.Dictionary.Read.{lookup_term, seek_term_doc}
use compact_core.Search.Postings.{Posting}
use mathlib.Core.Option

pub record TopKHit : Type 0 where
  pub doc_id : ℕ
  pub score : ℕ

-- `unwrap_or_default`
abbrev pub or_default : Option (List Posting) → List Posting
or_default none = []
or_default (some postings) = postings

-- `binary_search_by_key(&doc_id, ..).is_ok()` on a list whose docIDs increase: the docID is there.
abbrev pub has_doc : ℕ → List Posting → Bool
has_doc doc_id [] = false
has_doc doc_id (p ∷ ps) = p.doc_id == doc_id || has_doc doc_id ps

-- `binary_search(&next).is_ok()` on increasing positions.
abbrev pub has_position : ℕ → List ℕ → Bool
has_position x [] = false
has_position x (y ∷ ys) = y == x || has_position x ys

-- `sort_by_key(Vec::len)`, a stable sort, by insertion.
unfoldable pub insert_list : List Posting → List (List Posting) → List (List Posting)
insert_list list [] = list ∷ []
insert_list list (first ∷ lists) =
    let rest = insert_list list lists in
    if ltb (length first) (length list) then first ∷ rest else list ∷ first ∷ lists

unfoldable pub sort_lists : List (List Posting) → List (List Posting)
unfolding insert_list
sort_lists [] = []
sort_lists (list ∷ lists) = insert_list list (sort_lists lists)

abbrev pub in_all : ℕ → List (List Posting) → Bool
in_all doc_id [] = true
in_all doc_id (list ∷ lists) = has_doc doc_id list && in_all doc_id lists

-- The loop over the candidates.
unfoldable pub intersect : List Posting → List (List Posting) → List ℕ
intersect [] others = []
intersect (candidate ∷ candidates) others =
    let rest = intersect candidates others in
    if in_all candidate.doc_id others then candidate.doc_id ∷ rest else rest

abbrev pub intersect_lists : List (List Posting) → List ℕ
intersect_lists [] = []
intersect_lists (first ∷ others) = intersect first others

-- `position.checked_add(gap).is_some_and(..)` for any position of the first list.
unfoldable pub has_position_gap : List ℕ → List ℕ → ℕ → Bool
has_position_gap [] second gap = false
has_position_gap (position ∷ first) second gap =
    (ltb (position + gap) (2 ^ 64) && has_position (position + gap) second)
    || has_position_gap first second gap

abbrev pub positions_of : ℕ → List Posting → Option (List ℕ)
positions_of doc_id [] = none
positions_of doc_id (p ∷ ps) =
    let rest = positions_of doc_id ps in if p.doc_id == doc_id then some p.positions else rest

-- `scores.iter_mut().find(..)`, with the push where it finds none. The u64 `+=` is `+`: the scores
-- count positions that are in memory, which are fewer than 2^64.
unfoldable pub add_score : ℕ → ℕ → List TopKHit → List TopKHit
add_score doc_id score [] = record { doc_id = doc_id; score = score } ∷ []
add_score doc_id score (hit ∷ hits) =
    let rest = add_score doc_id score hits in
    if hit.doc_id == doc_id then record hit { score = hit.score + score } ∷ hits else hit ∷ rest

-- The loop over the postings of one term.
unfoldable pub score_postings : List Posting → List TopKHit → List TopKHit
unfolding add_score
score_postings [] scores = scores
score_postings (p ∷ ps) scores =
    score_postings ps
      (if length p.positions == 0 then scores else add_score p.doc_id (length p.positions) scores)

-- The order of `sort_by`: scores from the highest, then docIDs from the lowest.
abbrev pub ranks_before : TopKHit → TopKHit → Bool
ranks_before left right =
    ltb right.score left.score || (left.score == right.score && ltb left.doc_id right.doc_id)

unfoldable pub insert_hit : TopKHit → List TopKHit → List TopKHit
insert_hit hit [] = hit ∷ []
insert_hit hit (first ∷ hits) =
    let rest = insert_hit hit hits in
    if ranks_before first hit then first ∷ rest else hit ∷ first ∷ hits

unfoldable pub sort_hits : List TopKHit → List TopKHit
unfolding insert_hit
sort_hits [] = []
sort_hits (hit ∷ hits) = insert_hit hit (sort_hits hits)

-- `if postings.is_empty() { return Ok(Vec::new()) }`
abbrev pub unless_empty :
    List Posting → Result (Option (List (List Posting))) → Result (Option (List (List Posting)))
unless_empty [] more = ok none
unless_empty (p ∷ ps) more = more

module _ (hash : List ℕ → ℕ) where
  unfoldable pub term_doc_ids : List ℕ → List ℕ → Result (List ℕ)
  term_doc_ids dictionary term = do
    found ← lookup_term hash dictionary term
    ok (map (λ p. p.doc_id) (or_default found))

  -- The loop over the terms; `none` is the early `return Ok(Vec::new())`.
  unfoldable pub gather_lists : List ℕ → List (List ℕ) → Result (Option (List (List Posting)))
  gather_lists dictionary [] = ok (some [])
  gather_lists dictionary (term ∷ terms) = do
    found ← lookup_term hash dictionary term
    let more = (do
      rest ← gather_lists dictionary terms
      ok (Option.map (λ lists. or_default found ∷ lists) rest))
    unless_empty (or_default found) more

  unfoldable pub and_doc_ids : List ℕ → List (List ℕ) → Result (List ℕ)
  unfolding gather_lists sort_lists intersect
  and_doc_ids dictionary [] = ok []
  and_doc_ids dictionary (term ∷ terms) = do
    lists ← gather_lists dictionary (term ∷ terms)
    ok (elim lists [ none ↦ [] | some found ↦ intersect_lists (sort_lists found) ])

  unfoldable pub has_adjacent_phrase : List ℕ → List ℕ → List ℕ → ℕ → Result Bool
  unfolding has_position_gap
  has_adjacent_phrase dictionary first_term second_term doc_id = do
    first_list ← lookup_term hash dictionary first_term
    let behind = λ (first : List ℕ). (do
      second_list ← lookup_term hash dictionary second_term
      ok (elim (positions_of doc_id (or_default second_list)) [
        | none ↦ false
        | some second ↦ has_position_gap first second 1
      ]))
    elim (positions_of doc_id (or_default first_list)) [
      | none ↦ ok false
      | some first ↦ behind first
    ]

  -- The loop over the terms.
  unfoldable pub score_terms : List ℕ → List (List ℕ) → List TopKHit → Result (List TopKHit)
  unfolding score_postings
  score_terms dictionary [] scores = ok scores
  score_terms dictionary (term ∷ terms) scores = do
    found ← lookup_term hash dictionary term
    score_terms dictionary terms (score_postings (or_default found) scores)

  unfoldable pub top_k_by_term_frequency : List ℕ → List (List ℕ) → ℕ → Result (List TopKHit)
  unfolding score_terms sort_hits
  top_k_by_term_frequency dictionary [] k = ok []
  top_k_by_term_frequency dictionary (term ∷ terms) zero = ok []
  top_k_by_term_frequency dictionary (term ∷ terms) (suc k) = do
    scores ← score_terms dictionary (term ∷ terms) []
    ok (take (suc k) (sort_hits scores))

  unfoldable pub term_contains_doc : List ℕ → List ℕ → ℕ → Result Bool
  term_contains_doc dictionary term doc_id = do
    found ← seek_term_doc hash dictionary term doc_id
    ok (elim found [ none ↦ false | some posting ↦ true ])
