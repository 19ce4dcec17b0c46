-- ===== src/Search/Postings/Index.antt =====
-- `validate_index` on the skip table that `encode_postings` writes.
use compact_core.Common.{
  ℕ, suc, ◌+◌, ◌-◌, ◌*◌, ◌/◌, ◌%◌, ◌^◌, ◌≤◌, ◌<◌, ◌≡◌, ◌≢◌, refl, ap, ◌∙◌, arith, List, [], ◌∷◌,
  Option, none, some, length, length-append, All, IsU64, ok, ℕ_discrete, ==_iff,
}
use compact_core.Search.Postings.{
  Posting, SkipEntry, PostingListIndex, Sections, no_sections, encode_posting, encode_postings_loop,
  position_deltas,
}
use compact_core.Primitives.Varint.{encode_u64}
use compact_core.Search.Postings.Decode.{validate_entries, validate_index, expected_skips}
use compact_core.Search.Postings.Order.{Rising, Increasing, doc_ids_of}
use compact_core.Search.Postings.RoundTrip.{
  Sized, parsed_of, written, frequencies_of, positions_bytes,
}
use compact_core.Search.Postings.Skips.{entries_from, on_step, WordEntry, entry_at}
use native.Mathlib.Nat.{div-eq_of_lt-le, mul-mod_left, suc-mul, add-zero}

-- The docIDs to come are above the one of the last entry.
abbrev Above : Option ℕ → List ℕ → Type 0
Above none xs = Increasing xs
Above (some previous) xs = Rising previous xs

pub Rising-lower : (q x : ℕ) (xs : List ℕ) → q < x → Rising x xs → Rising q xs
Rising-lower q x [] h r = tt
Rising-lower q x (y ∷ ys) h r = (omega arith, r.1)

Above-head : (before : Option ℕ) (x : ℕ) (xs : List ℕ) → Above before (x ∷ xs) → Rising x xs
Above-head none x xs r = r
Above-head (some q) x xs r = r.1

pub Rising→Increasing : (x : ℕ) (xs : List ℕ) → Rising x xs → Increasing xs
Rising→Increasing x [] r = tt
Rising→Increasing x (y ∷ ys) r = r.1

Above-tail : (before : Option ℕ) (x : ℕ) (xs : List ℕ) → Above before (x ∷ xs) → Above before xs
Above-tail none x xs r = Rising→Increasing x xs r
Above-tail (some q) x xs r = Rising-lower q x xs r.0 r.1

-- The sections so far are no longer than what `index` says of the whole.
abbrev Within : Sections → PostingListIndex → Type 0
Within s index =
    (length s.doc_ids ≤ index.doc_ids_len)
    × (length s.frequencies ≤ index.frequencies_len)
    × (length s.positions ≤ index.positions_len)

Within-loop :
    (step ordinal previous : ℕ) (ps : List Posting) (s : Sections) (index : PostingListIndex)
    → Within (encode_postings_loop step ordinal previous ps s) index
    → Within s index
Within-loop step ordinal previous ps s index (d, f, q) =
    let (docs, freqs, poss) = written step ordinal previous ps s in
    (
      omega (
        arith,
        ap length docs,
        length-append s.doc_ids (encode_u64 (position_deltas previous (doc_ids_of ps))),
      ),
      omega (arith, ap length freqs, length-append s.frequencies (encode_u64 (frequencies_of ps))),
      omega (arith, ap length poss, length-append s.positions (positions_bytes ps)),
    )

validate_entries-cons :
    (idx : ℕ) (before : Option ℕ) (index : PostingListIndex) (ordinal previous : ℕ) (p : Posting)
    (s : Sections) (xs : List ℕ) (rest : List SkipEntry)
    → ordinal ≡ idx * index.skip_step
    → ordinal < index.doc_count
    → Above before (p.doc_id ∷ xs)
    → Within s index
    → validate_entries idx before index (entry_at ordinal previous p s ∷ rest)
      ≡ validate_entries (idx + 1) (some p.doc_id) index rest
unfolding validate_entries
validate_entries-cons idx none index ordinal previous p s xs rest on inside above within =
    ground arith
validate_entries-cons idx (some q) index ordinal previous p s xs rest on inside above within =
    ground arith

off_step :
    (step idx ordinal : ℕ) → ordinal ≤ idx * step → ordinal % step ≢ 0 → ordinal + 1 ≤ idx * step
off_step step idx ordinal low off = elim (ℕ_discrete ordinal (idx * step)) [
  | yes same ↦ absurd (off (ap (λ (t : ℕ). t % step) same ∙ mul-mod_left idx step))
  | no other ↦ omega arith
]

module _ (step ordinal previous : ℕ) (p : Posting) (ps : List Posting) (s : Sections) where
  pub entries_from-on :
      ordinal % step ≡ 0
      → entries_from step ordinal previous (p ∷ ps) s
        ≡ entry_at ordinal previous p s
          ∷ entries_from step (ordinal + 1) p.doc_id ps (encode_posting step ordinal previous p s)
  unfolding entries_from
  entries_from-on on = rw (on) refl

  pub entries_from-off :
      ordinal % step ≢ 0
      → entries_from step ordinal previous (p ∷ ps) s
        ≡ entries_from step (ordinal + 1) p.doc_id ps (encode_posting step ordinal previous p s)
  unfolding entries_from
  entries_from-off off = ground arith

validate_entries-entries_from :
    (ps : List Posting) (idx ordinal previous : ℕ) (before : Option ℕ) (s : Sections)
    (index : PostingListIndex)
    → 0 < index.skip_step
    → ordinal + length ps ≤ index.doc_count
    → ordinal ≤ idx * index.skip_step
    → idx * index.skip_step < ordinal + index.skip_step
    → Above before (doc_ids_of ps)
    → Within (encode_postings_loop index.skip_step ordinal previous ps s) index
    → validate_entries idx before index (entries_from index.skip_step ordinal previous ps s) ≡ ok tt
unfolding entries_from encode_postings_loop
validate_entries-entries_from [] idx ordinal previous before s index pos count low high above
      within =
    unfold validate_entries in refl
validate_entries-entries_from (p ∷ ps) idx ordinal previous before s index pos count low high above
      within =
    let step = index.skip_step in
    let s' = encode_posting step ordinal previous p s in
    elim (ℕ_discrete (ordinal % step) 0) [
      | yes on ↦
          let start : ordinal ≡ idx * step = on_step step idx ordinal pos low high on in
          rw (entries_from-on step ordinal previous p ps s on) (
            validate_entries-cons idx before index ordinal previous p s (doc_ids_of ps) _ start
              (omega arith) above (Within-loop step ordinal previous (p ∷ ps) s index within)
            ∙ validate_entries-entries_from ps (idx + 1) (ordinal + 1) p.doc_id (some p.doc_id) s'
                index pos (omega arith) (omega (arith, suc-mul idx step))
                (omega (arith, suc-mul idx step)) (Above-head before p.doc_id (doc_ids_of ps) above)
                within)
      | no off ↦ rw (entries_from-off step ordinal previous p ps s off) (
          validate_entries-entries_from ps idx (ordinal + 1) p.doc_id before s' index pos
            (omega arith) (off_step step idx ordinal low off) (omega arith)
            (Above-tail before p.doc_id (doc_ids_of ps) above) within)
    ]

-- The table has an entry for each multiple of the step below the count.
length-entries_from :
    (step : ℕ) (ps : List Posting) (idx ordinal previous : ℕ) (s : Sections)
    → 0 < step
    → ordinal ≤ idx * step
    → idx * step < ordinal + step
    → (ordinal + length ps ≤ (idx + length (entries_from step ordinal previous ps s)) * step)
      × ((idx + length (entries_from step ordinal previous ps s)) * step
          < ordinal + length ps + step)
unfolding entries_from
length-entries_from step [] idx ordinal previous s pos low high =
    rw (add-zero idx) (omega arith, omega arith)
length-entries_from step (p ∷ ps) idx ordinal previous s pos low high =
    let s' = encode_posting step ordinal previous p s in
    elim (ℕ_discrete (ordinal % step) 0) [
      | yes on ↦
          let start : ordinal ≡ idx * step = on_step step idx ordinal pos low high on in
          let rest = entries_from step (ordinal + 1) p.doc_id ps s' in
          let (least, most) =
            length-entries_from step ps (idx + 1) (ordinal + 1) p.doc_id s' pos
              (omega (arith, suc-mul idx step)) (omega (arith, suc-mul idx step)) in
          let moved : idx + suc (length rest) ≡ idx + 1 + length rest = omega arith in
          rw (entries_from-on step ordinal previous p ps s on, moved) (omega arith, omega arith)
      | no off ↦
          let (least, most) =
            length-entries_from step ps idx (ordinal + 1) p.doc_id s' pos
              (off_step step idx ordinal low off) (omega arith) in
          rw (entries_from-off step ordinal previous p ps s off) (omega arith, omega arith)
    ]

entries_from-WordEntry :
    (step ordinal previous : ℕ) (ps : List Posting) (s : Sections) (index : PostingListIndex)
    → ordinal + length ps < 2 ^ 64
    → IsU64 previous
    → All Sized ps
    → (index.doc_ids_len < 2 ^ 64)
      × (index.frequencies_len < 2 ^ 64)
      × (index.positions_len < 2 ^ 64)
    → Within (encode_postings_loop step ordinal previous ps s) index
    → All WordEntry (entries_from step ordinal previous ps s)
unfolding encode_postings_loop entries_from
entries_from-WordEntry step ordinal previous [] s index count prev sized lens within = tt
entries_from-WordEntry step ordinal previous (p ∷ ps) s index count prev sized lens within =
    let s' = encode_posting step ordinal previous p s in
    let rest =
      entries_from-WordEntry step (ordinal + 1) p.doc_id ps s' index (omega arith) sized.0.0 sized.1
        lens within in
    let (d, f, q) = Within-loop step ordinal previous (p ∷ ps) s index within in
    elim (ℕ_discrete (ordinal % step) 0) [
      | yes on ↦
          rw (entries_from-on step ordinal previous p ps s on)
            ((omega arith, sized.0.0, prev, omega arith, omega arith, omega arith), rest)
      | no off ↦ rw (entries_from-off step ordinal previous p ps s off) rest
    ]

length-entries_from_all :
    (ps : List Posting) (step : ℕ)
    → 0 < step
    → length (entries_from step 0 0 ps no_sections) ≡ expected_skips (length ps) step
length-entries_from_all [] step pos = unfold entries_from in refl
length-entries_from_all (p ∷ ps) step pos =
    let es = entries_from step 0 0 (p ∷ ps) no_sections in
    let (least, most) =
      length-entries_from step (p ∷ ps) 0 0 0 no_sections pos (omega arith) (omega arith) in
    let whole : (length (p ∷ ps) + step - 1) / step ≡ length es =
      div-eq_of_lt-le step {m = length (p ∷ ps) + step - 1} (omega arith)
        (omega (arith, suc-mul (length es) step)) in
    ground (arith, whole)

-- The index that `parse` builds from an encoded list is valid.
pub validate_index-entries_from :
    (ps : List Posting) (step : ℕ)
    → 0 < step
    → Increasing (doc_ids_of ps)
    → validate_index (parsed_of ps step (entries_from step 0 0 ps no_sections)).index ≡ ok tt
unfolding validate_index
validate_index-entries_from ps step pos rising =
    let es = entries_from step 0 0 ps no_sections in
    let index = (parsed_of ps step es).index in
    let size =
      (==_iff (length es) (expected_skips (length ps) step)).1
        (length-entries_from_all ps step pos) in
    rw (size) (
      validate_entries-entries_from ps 0 0 0 none no_sections index pos (omega arith) (omega arith)
        (omega arith) rising (omega arith, omega arith, omega arith))

-- Sections of less than 2 ^ 64 bytes.
abbrev pub Short : Sections → Type 0
Short s =
    (length s.doc_ids < 2 ^ 64) × (length s.frequencies < 2 ^ 64) × (length s.positions < 2 ^ 64)

pub entries_from-All_WordEntry :
    (ps : List Posting) (step : ℕ)
    → length ps < 2 ^ 64
    → All Sized ps
    → Short (encode_postings_loop step 0 0 ps no_sections)
    → All WordEntry (entries_from step 0 0 ps no_sections)
entries_from-All_WordEntry ps step few sized short =
    entries_from-WordEntry step 0 0 ps no_sections (parsed_of ps step []).index (omega arith)
      (omega arith) sized short (omega arith, omega arith, omega arith)
