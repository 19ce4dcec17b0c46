-- ===== src/Search/Query/Conjunction.antt =====
-- `and_doc_ids` against the lists that were encoded.
use compact_core.Common.{
  ℕ, ◌^◌, ◌≤◌, ◌<◌, ◌≡◌, refl, sym, ap, ◌∙◌, arith, List, [], ◌∷◌, Option, none, some, false, ◌&&◌,
  ltb, ◌==◌, ==_iff, Bool-cases, Option-cases, inl, inr, length, All, IsU32, IsU64, ok, map,
}
use compact_core.Search.Dictionary.{TermPostingList, encode_dictionary}
use compact_core.Search.Dictionary.Entries.{WellTyped}
use compact_core.Search.Dictionary.Lookup.{find_postings, SizedList, lookup_term-encode_dictionary}
use compact_core.Search.Dictionary.Read.{lookup_term}
use compact_core.Search.Postings.{Posting}
use compact_core.Search.Postings.Decode.{max_collection_entries}
use mathlib.Core.Option
use compact_core.Search.Query.{
  or_default, has_doc, has_position, insert_list, sort_lists, in_all, intersect, intersect_lists,
  gather_lists, unless_empty, and_doc_ids,
}

in_all-insert_list :
    (d : ℕ) (list : List Posting) (lists : List (List Posting))
    → in_all d (insert_list list lists) ≡ (has_doc d list && in_all d lists)
unfolding insert_list
in_all-insert_list d list [] = refl
in_all-insert_list d list (first ∷ lists) = ground (arith, in_all-insert_list d list lists)

in_all-sort_lists :
    (d : ℕ) (lists : List (List Posting)) → in_all d (sort_lists lists) ≡ in_all d lists
unfolding sort_lists
in_all-sort_lists d [] = refl
in_all-sort_lists d (list ∷ lists) =
    in_all-insert_list d list (sort_lists lists)
    ∙ ap (λ t. has_doc d list && t) (in_all-sort_lists d lists)

-- `has_position` is membership in any list of numbers.
has-intersect :
    (d : ℕ) (candidates : List Posting) (others : List (List Posting))
    → has_position d (intersect candidates others) ≡ (has_doc d candidates && in_all d others)
unfolding intersect
has-intersect d [] others = refl
has-intersect d (c ∷ candidates) others = elim (Bool-cases (c.doc_id == d)) [
  | inl same ↦
      let e : c.doc_id ≡ d = (==_iff c.doc_id d).0 same in
      rw (e) (ground (arith, has-intersect d candidates others))
  | inr other ↦ ground (arith, has-intersect d candidates others)
]

has-insert_list :
    (d : ℕ) (list : List Posting) (lists : List (List Posting))
    → has_position d (intersect_lists (insert_list list lists)) ≡ in_all d (insert_list list lists)
unfolding insert_list
has-insert_list d list [] = has-intersect d list []
has-insert_list d list (first ∷ lists) = elim (Bool-cases (ltb (length first) (length list))) [
  | inl shorter ↦ rw (shorter) (has-intersect d first (insert_list list lists))
  | inr longer ↦ rw (longer) (has-intersect d list (first ∷ lists))
]

has-intersect_lists :
    (d : ℕ) (list : List Posting) (lists : List (List Posting))
    → has_position d (intersect_lists (sort_lists (list ∷ lists))) ≡ in_all d (list ∷ lists)
unfolding sort_lists
has-intersect_lists d list lists =
    has-insert_list d list (sort_lists lists)
    ∙ in_all-insert_list d list (sort_lists lists)
    ∙ ap (λ t. has_doc d list && t) (in_all-sort_lists d lists)

-- One term of the loop: an empty list ends it.
abbrev gather_step : List Posting → Option (List (List Posting)) → Option (List (List Posting))
gather_step [] more = none
gather_step (p ∷ ps) more = Option.map (λ lists. (p ∷ ps) ∷ lists) more

gather_step-none :
    (d : ℕ) (list : List Posting) (more : Option (List (List Posting)))
    (lists : List (List Posting))
    → (more ≡ none → in_all d lists ≡ false)
    → gather_step list more ≡ none
    → (has_doc d list && in_all d lists) ≡ false
gather_step-none d [] more lists empty h = refl
gather_step-none d (p ∷ ps) none lists empty h = ground (arith, empty refl)
gather_step-none d (p ∷ ps) (some found) lists empty h = cc

gather_step-some :
    (list : List Posting) (more : Option (List (List Posting))) (lists final : List (List Posting))
    → ((found : List (List Posting)) → more ≡ some found → found ≡ lists)
    → gather_step list more ≡ some final
    → final ≡ list ∷ lists
gather_step-some [] more lists final same h = cc
gather_step-some (p ∷ ps) none lists final same h = cc
gather_step-some (p ∷ ps) (some found) lists final same h = ground (arith, same found refl)

module _ (es : List TermPostingList) where
  -- The posting list of a term, empty where the term is not listed.
  abbrev pub postings_for : List ℕ → List Posting
  postings_for term = or_default (find_postings term es)

  abbrev pub lists_for : List (List ℕ) → List (List Posting)
  lists_for = map postings_for

  -- What the loop over the terms gathers.
  gathered : List (List ℕ) → Option (List (List Posting))
  gathered [] = some []
  gathered (term ∷ terms) = gather_step (postings_for term) (gathered terms)

  -- A term without postings leaves nothing to intersect.
  gathered-none :
      (d : ℕ) (terms : List (List ℕ)) → gathered terms ≡ none → in_all d (lists_for terms) ≡ false
  unfolding gathered
  gathered-none d [] h = cc
  gathered-none d (term ∷ terms) h =
      gather_step-none d (postings_for term) (gathered terms) (lists_for terms)
        (gathered-none d terms) h

  gathered-some :
      (terms : List (List ℕ)) (lists : List (List Posting))
      → gathered terms ≡ some lists
      → lists ≡ lists_for terms
  unfolding gathered
  gathered-some [] lists h = ground arith
  gathered-some (term ∷ terms) lists h =
      gather_step-some (postings_for term) (gathered terms) (lists_for terms) lists
        (gathered-some terms) h

module _ (hash : List ℕ → ℕ) (step : ℕ) (es : List TermPostingList) (bytes : List ℕ)
    (word : (body : List ℕ) → IsU32 (hash body)) (step_word : IsU64 step) (typed : All WellTyped es)
    (sized : All SizedList es) (few : length es ≤ max_collection_entries)
    (fits : length bytes < 2 ^ 64) (encoded : encode_dictionary hash es step ≡ ok bytes) where
  pub found_term : (term : List ℕ) → lookup_term hash bytes term ≡ ok (find_postings term es)
  found_term term =
      lookup_term-encode_dictionary hash step es bytes term word step_word typed sized few fits
        encoded

  gather_lists-gathered :
      (terms : List (List ℕ)) → gather_lists hash bytes terms ≡ ok (gathered es terms)
  unfolding gather_lists gathered
  gather_lists-gathered [] = refl
  gather_lists-gathered (term ∷ terms) =
      rw (found_term term, gather_lists-gathered terms)
        (branch (postings_for es term) (gathered es terms))
    where
      branch :
          (list : List Posting) (more : Option (List (List Posting)))
          → unless_empty list (ok (Option.map (λ lists. list ∷ lists) more))
            ≡ ok (gather_step list more)
      branch [] more = refl
      branch (p ∷ ps) more = refl

  -- On a dictionary that `encode_dictionary` wrote, `and_doc_ids` of one term or more returns exactly
  -- the docIDs that stand in the posting list of every term, a term that is not listed having none.
  -- The conditions are those of `lookup_term-encode_dictionary`.
  pub and_doc_ids-in_all :
      (term : List ℕ) (terms : List (List ℕ))
      → (ids : List ℕ) × (and_doc_ids hash bytes (term ∷ terms) ≡ ok ids)
        × ((d : ℕ) → has_position d ids ≡ in_all d (lists_for es (term ∷ terms)))
  unfolding and_doc_ids
  and_doc_ids-in_all term terms = elim (Option-cases (gathered es (term ∷ terms))) [
    | inl nothing ↦ (
      [],
      rw (gather_lists-gathered (term ∷ terms), nothing) refl,
      λ d. sym (gathered-none es d (term ∷ terms) nothing),
    )
    | inr (lists, something) ↦
        let all = gathered-some es (term ∷ terms) lists something in
        (
          intersect_lists (sort_lists (lists_for es (term ∷ terms))),
          rw (gather_lists-gathered (term ∷ terms), something, all) refl,
          λ d. has-intersect_lists d (postings_for es term) (lists_for es terms),
        )
  ]
