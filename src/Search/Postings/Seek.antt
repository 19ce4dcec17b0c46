-- ===== src/Search/Postings/Seek.antt =====
-- `seek_doc`: the postings from a skip entry on, and the choice of the entry.
use compact_core.Common.{
  ℕ, ◌+◌, ◌-◌, ◌%◌, ◌≤◌, ◌<◌, ◌≡◌, ◌≢◌, refl, sym, ap, ◌∙◌, arith, List, [], ◌∷◌, ◌++◌, Option,
  none, some, length, append-nil, All, ok, ◌==◌, if◌then◌else◌, dec_le, ℕ_discrete, ◌⊎◌, inl, inr,
}
use compact_core.Search.Postings.{
  Posting, SkipEntry, Sections, no_sections, position_deltas, encode_posting, encode_postings_loop,
}
use compact_core.Search.Postings.Decode.{
  ParsedPostingList, Cursors, seek_loop, seek_from, skip_before_or_at,
}
use compact_core.Search.Postings.Order.{Rising, Increasing, Ordered, doc_ids_of}
use compact_core.Search.Postings.Positions.{Ascending, Rising→Ascending}
use compact_core.Search.Postings.RoundTrip.{
  Sized, Ahead, read_posting-Ahead, written, frequencies_of, positions_bytes,
}
use compact_core.Search.Postings.Skips.{entries_from, entry_at}
use native.Mathlib.Nat.{zero-mod}
use compact_core.Search.Postings.Index.{Rising→Increasing, entries_from-on, entries_from-off}

-- The posting of a document, by a search from the front.
unfoldable pub find_doc : ℕ → List Posting → Option Posting
find_doc target [] = none
find_doc target (p ∷ ps) = if p.doc_id == target then some p else find_doc target ps

find_doc-above :
    (target q : ℕ) (ps : List Posting)
    → target ≤ q
    → Rising q (doc_ids_of ps)
    → find_doc target ps ≡ none
unfolding find_doc
find_doc-above target q [] le r = refl
find_doc-above target q (p ∷ ps) le r =
    ground (arith, find_doc-above target p.doc_id ps (omega arith) r.1)

module _ (parsed : ParsedPostingList) (target : ℕ) where
  seek_loop-Ahead :
      (ps : List Posting) (previous : ℕ) (at : Cursors)
      → Ascending previous (doc_ids_of ps)
      → Increasing (doc_ids_of ps)
      → All (λ p. Increasing p.positions) ps
      → All Sized ps
      → Ahead parsed at
          (position_deltas previous (doc_ids_of ps))
          (frequencies_of ps)
          (positions_bytes ps)
      → seek_loop (length ps) parsed target previous at ≡ ok (find_doc target ps)
  unfolding seek_loop find_doc
  seek_loop-Ahead [] previous at asc rise inc sized ahead = refl
  seek_loop-Ahead (p ∷ ps) previous at asc rise inc sized ahead =
      let (behind, read, ahead') =
        read_posting-Ahead p ps parsed previous at asc.0 inc.0 sized.0 ahead in
      let rest =
        seek_loop-Ahead ps p.doc_id behind (Rising→Ascending p.doc_id (doc_ids_of ps) rise)
          (Rising→Increasing p.doc_id (doc_ids_of ps) rise) inc.1 sized.1 ahead' in
      rw (read, rest)
        (ground (arith, λ (h : target ≤ p.doc_id). find_doc-above target p.doc_id ps h rise))

  skipped : ℕ → ℕ → ℕ → List Posting → Sections → Option SkipEntry → Option SkipEntry
  skipped step ordinal previous ps s last =
      skip_before_or_at target last (entries_from step ordinal previous ps s)

  skipped-on_below :
      (step ordinal previous : ℕ) (p : Posting) (ps : List Posting) (s : Sections)
      (last : Option SkipEntry)
      → ordinal % step ≡ 0
      → p.doc_id ≤ target
      → skipped step ordinal previous (p ∷ ps) s last
        ≡ skipped step
            (ordinal + 1)
            p.doc_id
            ps
            (encode_posting step ordinal previous p s)
            (some (entry_at ordinal previous p s))
  unfolding skipped skip_before_or_at
  skipped-on_below step ordinal previous p ps s last on le =
      rw (entries_from-on step ordinal previous p ps s on) (ground arith)

  skipped-on_above :
      (step ordinal previous : ℕ) (p : Posting) (ps : List Posting) (s : Sections)
      (last : Option SkipEntry)
      → ordinal % step ≡ 0
      → target < p.doc_id
      → skipped step ordinal previous (p ∷ ps) s last ≡ last
  unfolding skipped skip_before_or_at
  skipped-on_above step ordinal previous p ps s last on above =
      rw (entries_from-on step ordinal previous p ps s on) (ground arith)

  skipped-off :
      (step ordinal previous : ℕ) (p : Posting) (ps : List Posting) (s : Sections)
      (last : Option SkipEntry)
      → ordinal % step ≢ 0
      → skipped step ordinal previous (p ∷ ps) s last
        ≡ skipped step (ordinal + 1) p.doc_id ps (encode_posting step ordinal previous p s) last
  unfolding skipped
  skipped-off step ordinal previous p ps s last off =
      rw (entries_from-off step ordinal previous p ps s off) refl

  -- No entry of documents above the target is chosen.
  skipped-above :
      (ps : List Posting) (step ordinal previous q : ℕ) (s : Sections) (last : Option SkipEntry)
      → target ≤ q
      → Rising q (doc_ids_of ps)
      → skipped step ordinal previous ps s last ≡ last
  skipped-above [] step ordinal previous q s last le r =
      unfold skipped entries_from skip_before_or_at in refl
  skipped-above (p ∷ ps) step ordinal previous q s last le r =
      elim (ℕ_discrete (ordinal % step) 0) [
        | yes on ↦ skipped-on_above step ordinal previous p ps s last on (omega arith)
        | no off ↦
            skipped-off step ordinal previous p ps s last off
            ∙ skipped-above ps step (ordinal + 1) p.doc_id p.doc_id
                (encode_posting step ordinal previous p s) last (omega arith) r.1
      ]

  -- The sections of `parsed` are what the loop makes of `ps` behind the state `s`.
  abbrev Ends : ℕ → ℕ → ℕ → List Posting → Sections → Type 0
  Ends step ordinal previous ps s =
      (parsed.doc_ids ≡ (encode_postings_loop step ordinal previous ps s).doc_ids)
      × (parsed.frequencies ≡ (encode_postings_loop step ordinal previous ps s).frequencies)
      × (parsed.positions ≡ (encode_postings_loop step ordinal previous ps s).positions)

  seek_from-entry_at :
      (step ordinal previous : ℕ) (p : Posting) (ps : List Posting) (s : Sections)
      → parsed.index.doc_count ≡ ordinal + length (p ∷ ps)
      → previous ≤ p.doc_id
      → Increasing (doc_ids_of (p ∷ ps))
      → All (λ x. Increasing x.positions) (p ∷ ps)
      → All Sized (p ∷ ps)
      → Ends step ordinal previous (p ∷ ps) s
      → seek_from parsed target (some (entry_at ordinal previous p s))
        ≡ ok (find_doc target (p ∷ ps))
  unfolding seek_from
  seek_from-entry_at step ordinal previous p ps s count le rise inc sized (docs, freqs, poss) =
      let (d, f, q) = written step ordinal previous (p ∷ ps) s in
      let left : parsed.index.doc_count - ordinal ≡ length (p ∷ ps) = omega arith in
      rw (left) (
        seek_loop-Ahead (p ∷ ps) previous _ (le, Rising→Ascending p.doc_id (doc_ids_of ps) rise)
          rise inc sized
          (
            (s.doc_ids, docs ∙ d ∙ ap (λ t. s.doc_ids ++ t) (sym (append-nil _)), refl),
            (s.frequencies, freqs ∙ f ∙ ap (λ t. s.frequencies ++ t) (sym (append-nil _)), refl),
            (s.positions, poss ∙ q, refl),
          ))

  next_found :
      (p : Posting) (ps : List Posting) (answer : Option Posting)
      → find_doc target (p ∷ ps) ≡ answer
      → (find_doc target ps ≡ answer) ⊎ (target ≤ p.doc_id)
  unfolding find_doc
  next_found p ps answer found = elim (ℕ_discrete p.doc_id target) [
    | yes same ↦ inr (omega arith)
    | no other ↦ inl (ground arith)
  ]

  seek_from-skipped :
      (ps : List Posting) (step ordinal previous : ℕ) (s : Sections) (last : Option SkipEntry)
      (answer : Option Posting)
      → parsed.index.doc_count ≡ ordinal + length ps
      → Rising previous (doc_ids_of ps)
      → All (λ p. Increasing p.positions) ps
      → All Sized ps
      → Ends step ordinal previous ps s
      → (find_doc target ps ≡ answer) ⊎ (target ≤ previous)
      → seek_from parsed target last ≡ ok answer
      → seek_from parsed target (skipped step ordinal previous ps s last) ≡ ok answer
  unfolding encode_postings_loop
  seek_from-skipped [] step ordinal previous s last answer count rise inc sized ends found chosen =
      unfold skipped entries_from skip_before_or_at in chosen
  seek_from-skipped (p ∷ ps) step ordinal previous s last answer count rise inc sized ends
        (inr passed) chosen =
      rw (skipped-above (p ∷ ps) step ordinal previous previous s last passed rise) chosen
  seek_from-skipped (p ∷ ps) step ordinal previous s last answer count rise inc sized ends
        (inl found) chosen =
      let s' = encode_posting step ordinal previous p s in
      let more : (last' : Option SkipEntry)
          → seek_from parsed target last' ≡ ok answer
          → seek_from parsed target (skipped step (ordinal + 1) p.doc_id ps s' last') ≡ ok answer =
        λ last' chosen'.
          seek_from-skipped ps step (ordinal + 1) p.doc_id s' last' answer (omega arith) rise.1
            inc.1 sized.1 ends (next_found p ps answer found) chosen' in
      elim (dec_le p.doc_id target) [
        | yes le ↦ elim (ℕ_discrete (ordinal % step) 0) [
          | yes on ↦ rw (skipped-on_below step ordinal previous p ps s last on le) (
              more (some (entry_at ordinal previous p s)) (
                seek_from-entry_at step ordinal previous p ps s count (omega arith) rise.1 inc sized
                  ends
                ∙ ap (λ t. ok t) found))
          | no off ↦ rw (skipped-off step ordinal previous p ps s last off) (more last chosen)
        ]
        | no above ↦
            rw
              (skipped-above (p ∷ ps) step ordinal previous target s last (omega arith)
                (omega arith, rise.1))
              chosen
      ]

  -- From the table of the whole list, the search finds what a search from the front finds.
  pub seek_from-all :
      (ps : List Posting) (step : ℕ)
      → parsed.index.doc_count ≡ length ps
      → Ordered ps
      → All Sized ps
      → Ends step 0 0 ps no_sections
      → seek_from parsed target
          (skip_before_or_at target none (entries_from step 0 0 ps no_sections))
        ≡ ok (find_doc target ps)
  unfolding encode_postings_loop skipped seek_from
  seek_from-all [] step count ordered sized ends =
      unfold entries_from skip_before_or_at seek_from find_doc in refl
  seek_from-all (p ∷ ps) step count (rise, inc) sized ends =
      let on : 0 % step ≡ 0 = zero-mod step in
      elim (dec_le p.doc_id target) [
        | yes le ↦ rw (skipped-on_below step 0 0 p ps no_sections none on le) (
            seek_from-skipped ps step 1 p.doc_id (encode_posting step 0 0 p no_sections)
              (some (entry_at 0 0 p no_sections)) (find_doc target (p ∷ ps)) (omega arith) rise
              inc.1 sized.1 ends (next_found p ps _ refl)
              (seek_from-entry_at step 0 0 p ps no_sections (omega arith) (omega arith) rise inc
                sized ends))
        | no above ↦ rw (skipped-on_above step 0 0 p ps no_sections none on (omega arith)) (
            sym (
              ap (λ t. ok t)
                (find_doc-above target target (p ∷ ps) (omega arith) (omega arith, rise))))
      ]
