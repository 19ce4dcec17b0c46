-- ===== src/Search/Postings/RoundTrip.antt =====
-- `decode_all` on the sections that the loop of `encode_postings` writes.
use compact_core.Common.{
  ℕ, ◌+◌, ◌-◌, ◌≤◌, ◌≡◌, refl, sym, ap, ◌∙◌, arith, List, [], ◌∷◌, ◌++◌, length, length-map,
  append_assoc, append-nil, All, IsU64, ok, map,
}
use compact_core.Primitives.Varint.{encode_u64, encode_value}
use compact_core.Search.Postings.{
  Posting, SkipEntry, Sections, no_sections, position_deltas, encode_position_deltas,
  encode_posting, encode_postings_loop,
}
use compact_core.Search.Postings.Decode.{
  ParsedPostingList, Cursors, read_posting, decode_all_loop, decode_all, max_collection_entries,
}
use compact_core.Search.Postings.Order.{Increasing, doc_ids_of, Ordered, validate_postings_iff}
use compact_core.Cursor.At.{At, At-end, read-At, length-encode_u64_least}
use compact_core.Search.Postings.Positions.{
  read_positions-At, Ascending, Increasing→Ascending, checked_add-delta, length-position_deltas,
}

-- The values of a posting are u64, and it has at most `max_collection_entries` positions.
abbrev pub Sized : Posting → Type 0
Sized p = IsU64 p.doc_id × All IsU64 p.positions × (length p.positions ≤ max_collection_entries)

abbrev pub frequencies_of : List Posting → List ℕ
frequencies_of = map (λ p. length p.positions)

abbrev pub positions_bytes : List Posting → List ℕ
positions_bytes [] = []
positions_bytes (p ∷ ps) = encode_position_deltas p.positions ++ positions_bytes ps

encode_u64-cons : (v : ℕ) (vs : List ℕ) → encode_u64 (v ∷ []) ++ encode_u64 vs ≡ encode_u64 (v ∷ vs)
unfolding encode_u64
encode_u64-cons v vs = ap (λ t. t ++ encode_u64 vs) (append-nil (encode_value v))

appended :
    (front : List ℕ) (v : ℕ) (vs : List ℕ)
    → (front ++ encode_u64 (v ∷ [])) ++ encode_u64 vs ≡ front ++ encode_u64 (v ∷ vs)
appended front v vs =
    append_assoc front (encode_u64 (v ∷ [])) (encode_u64 vs)
    ∙ ap (λ t. front ++ t) (encode_u64-cons v vs)

pub written :
    (step ordinal previous : ℕ) (ps : List Posting) (s : Sections)
    → ((encode_postings_loop step ordinal previous ps s).doc_ids
        ≡ s.doc_ids ++ encode_u64 (position_deltas previous (doc_ids_of ps)))
      × ((encode_postings_loop step ordinal previous ps s).frequencies
          ≡ s.frequencies ++ encode_u64 (frequencies_of ps))
      × ((encode_postings_loop step ordinal previous ps s).positions
          ≡ s.positions ++ positions_bytes ps)
unfolding encode_postings_loop encode_posting position_deltas encode_u64
written step ordinal previous [] s =
    (sym (append-nil s.doc_ids), sym (append-nil s.frequencies), sym (append-nil s.positions))
written step ordinal previous (p ∷ ps) s =
    let (docs, freqs, poss) =
      written step (ordinal + 1) p.doc_id ps (encode_posting step ordinal previous p s) in
    (
      docs ∙ appended s.doc_ids (p.doc_id - previous) (position_deltas p.doc_id (doc_ids_of ps)),
      freqs ∙ appended s.frequencies (length p.positions) (frequencies_of ps),
      poss ∙ append_assoc s.positions (encode_position_deltas p.positions) (positions_bytes ps),
    )

-- The sections of `parsed` from the three cursors on.
abbrev pub Ahead : ParsedPostingList → Cursors → List ℕ → List ℕ → List ℕ → Type 0
Ahead parsed at docs freqs poss =
    At parsed.doc_ids at.doc (encode_u64 docs ++ [])
    × At parsed.frequencies at.freq (encode_u64 freqs ++ [])
    × At parsed.positions at.pos poss

pub read_posting-Ahead :
    (p : Posting) (ps : List Posting) (parsed : ParsedPostingList) (previous : ℕ) (at : Cursors)
    → previous ≤ p.doc_id
    → Increasing p.positions
    → Sized p
    → Ahead parsed at
        (position_deltas previous (doc_ids_of (p ∷ ps)))
        (frequencies_of (p ∷ ps))
        (positions_bytes (p ∷ ps))
    → (behind : Cursors) × (read_posting parsed previous at ≡ ok (p, behind))
      × Ahead parsed behind
          (position_deltas p.doc_id (doc_ids_of ps))
          (frequencies_of ps)
          (positions_bytes ps)
unfolding read_posting position_deltas
read_posting-Ahead p ps parsed previous at le inc sized (docs, freqs, poss) =
    let (doc, read_doc, docs') =
      read-At parsed.doc_ids at.doc (p.doc_id - previous) _ [] (omega arith) docs in
    let (freq, read_freq, freqs') =
      read-At parsed.frequencies at.freq (length p.positions) _ [] (omega arith) freqs in
    let (pos, read_pos, poss') =
      read_positions-At p.positions parsed.positions at.pos (positions_bytes ps) inc sized.1 sized.2
        poss in
    (
      record { doc = doc; freq = freq; pos = pos },
      rw (read_doc, checked_add-delta previous p.doc_id le sized.0, read_freq, read_pos) refl,
      (docs', freqs', poss'),
    )

decode_all_loop-Ahead :
    (ps : List Posting) (parsed : ParsedPostingList) (previous : ℕ) (at : Cursors)
    → Ascending previous (doc_ids_of ps)
    → All (λ p. Increasing p.positions) ps
    → All Sized ps
    → Ahead parsed at
        (position_deltas previous (doc_ids_of ps))
        (frequencies_of ps)
        (positions_bytes ps)
    → (end : Cursors) × (decode_all_loop (length ps) parsed previous at ≡ ok (ps, end))
      × Ahead parsed end [] [] []
unfolding decode_all_loop position_deltas
decode_all_loop-Ahead [] parsed previous at asc inc sized ahead = (at, refl, ahead)
decode_all_loop-Ahead (p ∷ ps) parsed previous at asc inc sized ahead =
    let (behind, read, ahead') =
      read_posting-Ahead p ps parsed previous at asc.0 inc.0 sized.0 ahead in
    let (end, others, finished) =
      decode_all_loop-Ahead ps parsed p.doc_id behind asc.1 inc.1 sized.1 ahead' in
    (end, rw (read, others) refl, finished)

-- What the loop of `encode_postings` writes, as `parse` hands it to `decode_all`.
abbrev pub parsed_of : List Posting → ℕ → List SkipEntry → ParsedPostingList
parsed_of ps step entries =
    let s = encode_postings_loop step 0 0 ps no_sections in
    record {
      index = record {
        doc_count = length ps;
        skip_step = step;
        doc_ids_len = length s.doc_ids;
        frequencies_len = length s.frequencies;
        positions_len = length s.positions;
        skip_entries = entries;
      };
      doc_ids = s.doc_ids;
      frequencies = s.frequencies;
      positions = s.positions;
    }

start : (bytes suffix : List ℕ) → bytes ≡ suffix → At bytes 0 (suffix ++ [])
start bytes suffix e = ([], e ∙ sym (append-nil suffix), refl)

-- From the sections that the loop of `encode_postings` writes, with its lengths and any skip table,
-- `decode_all` reads the posting list back: it is ordered, its values are u64, and it has at most
-- `max_collection_entries` postings, each with at most so many positions.
pub decode_all-encode_postings_loop :
    (ps : List Posting) (step : ℕ) (entries : List SkipEntry)
    → Ordered ps
    → All Sized ps
    → length ps ≤ max_collection_entries
    → decode_all (parsed_of ps step entries) ≡ ok ps
unfolding decode_all encode_u64
decode_all-encode_postings_loop ps step entries (rising, inc) sized few =
    let (docs, freqs, poss) = written step 0 0 ps no_sections in
    let s : Sections = encode_postings_loop step 0 0 ps no_sections in
    let enough_docs : length ps ≤ length s.doc_ids = omega (
      arith,
      ap length docs,
      length-encode_u64_least (position_deltas 0 (doc_ids_of ps)),
      length-position_deltas 0 (doc_ids_of ps),
      length-map (λ (p : Posting). p.doc_id) ps,
    ) in
    let enough_freqs : length ps ≤ length s.frequencies = omega (
      arith,
      ap length freqs,
      length-encode_u64_least (frequencies_of ps),
      length-map (λ (p : Posting). length p.positions) ps,
    ) in
    let (end, loop, (doc, freq, pos)) =
      decode_all_loop-Ahead ps (parsed_of ps step entries) 0 (record { doc = 0; freq = 0; pos = 0 })
        (Increasing→Ascending (doc_ids_of ps) rising) inc sized
        (start _ _ docs, start _ _ freqs, ([], poss, refl)) in
    let e1 : end.doc ≡ length s.doc_ids = At-end _ _ doc in
    let e2 : end.freq ≡ length s.frequencies = At-end _ _ freq in
    let e3 : end.pos ≡ length s.positions = At-end _ _ pos in
    rw (loop, (validate_postings_iff ps).1 (rising, inc)) (ground arith)
