-- ===== src/Search/Dictionary/Entries.antt =====
-- The entries that `encode_dictionary` writes, and how they read back.
use compact_core.Common.{
  ℕ, suc, ◌+◌, ◌*◌, ◌/◌, ◌^◌, ◌≤◌, ◌<◌, ◌≡◌, refl, ap, ◌∙◌, arith, List, [], ◌∷◌, ◌++◌, Option,
  none, some, true, false, not, ltb, ◌||◌, ◌==◌, ==_iff, length, length-append, append_assoc,
  append-nil, All, ok, ◌>>◌, >>=-eq-ok, ensure, invalid_input,
}
use compact_core.Cursor.At.{At, At-start, At-end, read-At, section_at-At, length-encode_u64_least}
use compact_core.Primitives.Delta.{checked_add}
use compact_core.Primitives.Varint.{encode_u64}
use compact_core.Search.Dictionary.{
  TermPostingList, TermIndexEntry, empty_term, is_empty, after_term, validate_terms,
  validate_terms_loop, entry_bytes, encode_entries,
}
use compact_core.Search.Dictionary.Read.{
  take_section, decode_entry, decode_entries_loop, decode_entries, validate_ranges_loop,
  validate_posting_ranges,
}
use compact_core.Search.Postings.{encode_postings}
use compact_core.Search.Postings.Decode.{max_collection_entries}
use compact_core.Common.Text.{is_utf8}

abbrev pub all_bytes : List TermIndexEntry → List ℕ
all_bytes [] = []
all_bytes (e ∷ es) = entry_bytes e ++ all_bytes es

-- Terms are `String`s, and posting lists have u64 lengths.
abbrev pub WellTyped : TermPostingList → Type 0
WellTyped e = (is_utf8 e.term ≡ true) × (length e.postings < 2 ^ 64)

validate_terms_loop-cons :
    (previous : Option (List ℕ)) (e : TermPostingList) (es : List TermPostingList)
    → validate_terms_loop previous (e ∷ es) ≡ ok tt
    → (is_empty e.term ≡ false)
      × (after_term previous e.term ≡ ok tt)
      × (validate_terms_loop (some e.term) es ≡ ok tt)
unfolding validate_terms_loop
validate_terms_loop-cons previous e es h =
    let (_, filled, more) =
      >>=-eq-ok (λ _. after_term previous e.term >> validate_terms_loop (some e.term) es)
        (ensure (not (is_empty e.term)) empty_term) h in
    let (_, above, others) =
      >>=-eq-ok (λ _. validate_terms_loop (some e.term) es) (after_term previous e.term) more in
    (ground arith, ground arith, others)

is_empty-length : (bytes : List ℕ) → is_empty bytes ≡ false → 1 ≤ length bytes
is_empty-length [] h = cc
is_empty-length (b ∷ bytes) h = omega arith

abbrev written_at : List ℕ → ℕ → ℕ → ℕ → TermIndexEntry
written_at term o len count = record {
  term = term;
  postings_offset = o;
  postings_len = len;
  doc_count = count;
}

decode_entry-At :
    (bytes term : List ℕ) (plen o len count cursor : ℕ) (previous : Option (List ℕ)) (back : List ℕ)
    → length bytes < 2 ^ 64
    → plen < 2 ^ 64
    → count < 2 ^ 64
    → o + len ≤ plen
    → is_utf8 term ≡ true
    → is_empty term ≡ false
    → after_term previous term ≡ ok tt
    → At bytes cursor (entry_bytes (written_at term o len count) ++ back)
    → (next : ℕ) × (decode_entry bytes plen cursor previous
        ≡ ok (written_at term o len count, next))
      × At bytes next back
unfolding decode_entry take_section encode_u64
decode_entry-At bytes term plen o len count c0 previous back fits pfits cfits within utf8 filled
      above at0 =
    let numbers = encode_u64 (o ∷ len ∷ count ∷ []) in
    let size = encode_u64 (length term ∷ []) in
    let apart =
      append_assoc size (term ++ numbers) back
      ∙ ap (λ t. size ++ t) (append_assoc term numbers back) in
    let at1 : At bytes c0 (size ++ (term ++ (numbers ++ back))) =
      (at0.0, at0.1 ∙ ap (λ t. at0.0 ++ t) apart, at0.2) in
    let small : length term < 2 ^ 64 = omega (
      arith,
      ap length at1.1,
      length-append at1.0 (size ++ (term ++ (numbers ++ back))),
      length-append size (term ++ (numbers ++ back)),
      length-append term (numbers ++ back),
    ) in
    let (c1, r1, at2) = read-At bytes c0 (length term) [] (term ++ (numbers ++ back)) small at1 in
    let (c2, r2, at3) =
      section_at-At bytes c1 (length term) term (numbers ++ back)
        (invalid_input "term dictionary section length overflow")
        (invalid_input "term dictionary term is truncated") refl fits at2 in
    let (c3, r3, at4) = read-At bytes c2 o (len ∷ count ∷ []) back (omega arith) at3 in
    let (c4, r4, at5) = read-At bytes c3 len (count ∷ []) back (omega arith) at4 in
    let (c5, r5, at6) = read-At bytes c4 count [] back cfits at5 in
    let added : checked_add o len ≡ some (o + len) = ground arith in
    let inside : ltb plen (o + len) ≡ false = ground arith in
    (c5, rw (r1, r2, utf8, r3, r4, r5, filled, above, added, inside) refl, at6)

module _ (hash : List ℕ → ℕ) (step : ℕ) where
  -- From offset `o` of the blob on, the index says where the payload of each entry stands.
  abbrev pub Laid : ℕ → List TermPostingList → List TermIndexEntry → List ℕ → Type 0
  Laid o [] [] blob = blob ≡ []
  Laid o [] (i ∷ is) blob = ⊥
  Laid o (e ∷ es) [] blob = ⊥
  Laid o (e ∷ es) (i ∷ is) blob =
      (payload : List ℕ) × (rest : List ℕ) × (blob ≡ payload ++ rest)
      × (encode_postings hash e.postings step ≡ ok payload)
      × (i ≡ record {
        term = e.term;
        postings_offset = o;
        postings_len = length payload;
        doc_count = length e.postings;
      })
      × Laid (o + length payload) es is rest

  pub encode_entries-Laid :
      (es : List TermPostingList) (dictionary blob dictionary' blob' : List ℕ)
      → encode_entries hash step es dictionary blob ≡ ok (dictionary', blob')
      → (is : List TermIndexEntry) × (tail : List ℕ) × (dictionary' ≡ dictionary ++ all_bytes is)
        × (blob' ≡ blob ++ tail)
        × Laid (length blob) es is tail
        × (length is ≡ length es)
  unfolding encode_entries
  encode_entries-Laid [] dictionary blob dictionary' blob' h =
      ([], [], ground (arith, append-nil dictionary), ground (arith, append-nil blob), refl, refl)
  encode_entries-Laid (e ∷ es) dictionary blob dictionary' blob' h =
      let (payload, encoded, more) = >>=-eq-ok _ (encode_postings hash e.postings step) h in
      let i : TermIndexEntry = record {
        term = e.term;
        postings_offset = length blob;
        postings_len = length payload;
        doc_count = length e.postings;
      } in
      let (is, tail, docs, blobs, laid, count) =
        encode_entries-Laid es (dictionary ++ entry_bytes i) (blob ++ payload) dictionary' blob'
          more in
      (
        i ∷ is,
        payload ++ tail,
        docs ∙ append_assoc dictionary (entry_bytes i) (all_bytes is),
        blobs ∙ append_assoc blob payload tail,
        (payload, tail, refl, encoded, refl, rw (length-append blob payload) at laid),
        ap suc count,
      )

  -- The ranges are contiguous.
  validate_ranges_loop-Laid :
      (es : List TermPostingList) (is : List TermIndexEntry) (o : ℕ) (blob : List ℕ)
      → Laid o es is blob
      → o + length blob < 2 ^ 64
      → validate_ranges_loop o is ≡ ok tt
  unfolding validate_ranges_loop
  validate_ranges_loop-Laid [] [] o blob laid fits = refl
  validate_ranges_loop-Laid [] (i ∷ is) o blob laid fits = elim laid [ ]
  validate_ranges_loop-Laid (e ∷ es) [] o blob laid fits = elim laid [ ]
  validate_ranges_loop-Laid (e ∷ es) (i ∷ is) o blob (payload, rest, split, encoded, same, laid)
        fits =
      let whole : length blob ≡ length payload + length rest =
        ap length split ∙ length-append payload rest in
      let rest_valid =
        validate_ranges_loop-Laid es is (o + length payload) rest laid (omega arith) in
      rw (same) (ground (arith, rest_valid))

  decode_entries_loop-Laid :
      (es : List TermPostingList) (is : List TermIndexEntry) (bytes : List ℕ) (plen o cursor : ℕ)
      (previous : Option (List ℕ)) (blob : List ℕ)
      → Laid o es is blob
      → length bytes < 2 ^ 64
      → plen < 2 ^ 64
      → o + length blob ≤ plen
      → All WellTyped es
      → validate_terms_loop previous es ≡ ok tt
      → At bytes cursor (all_bytes is)
      → (end : ℕ) × (decode_entries_loop (length es) bytes plen cursor previous ≡ ok (is, end))
        × At bytes end []
  unfolding decode_entries_loop
  decode_entries_loop-Laid [] [] bytes plen o cursor previous blob laid fits pfits within typed
        valid at =
      (cursor, refl, at)
  decode_entries_loop-Laid [] (i ∷ is) bytes plen o cursor previous blob laid fits pfits within
        typed valid at =
      elim laid [ ]
  decode_entries_loop-Laid (e ∷ es) [] bytes plen o cursor previous blob laid fits pfits within
        typed valid at =
      elim laid [ ]
  decode_entries_loop-Laid (e ∷ es) (i ∷ is) bytes plen o cursor previous blob
        (payload, rest, split, encoded, same, laid) fits pfits within typed valid at =
      let whole : length blob ≡ length payload + length rest =
        ap length split ∙ length-append payload rest in
      let (filled, above, others) = validate_terms_loop-cons previous e es valid in
      let at' : At bytes cursor
          (entry_bytes (written_at e.term o (length payload) (length e.postings)) ++ all_bytes is) =
        rw (same) at at in
      let (next, first, at'') =
        decode_entry-At bytes e.term plen o (length payload) (length e.postings) cursor previous
          (all_bytes is) fits pfits typed.0.1 (omega arith) typed.0.0 filled above at' in
      let (end, more, done) =
        decode_entries_loop-Laid es is bytes plen (o + length payload) next (some e.term) rest laid
          fits pfits (omega arith) typed.1 others at'' in
      (end, rw (first, more, same) refl, done)

  all_bytes-least :
      (es : List TermPostingList) (is : List TermIndexEntry) (o : ℕ) (previous : Option (List ℕ))
      (blob : List ℕ)
      → Laid o es is blob
      → validate_terms_loop previous es ≡ ok tt
      → 5 * length es ≤ length (all_bytes is)
  all_bytes-least [] [] o previous blob laid valid = omega arith
  all_bytes-least [] (i ∷ is) o previous blob laid valid = elim laid [ ]
  all_bytes-least (e ∷ es) [] o previous blob laid valid = elim laid [ ]
  all_bytes-least (e ∷ es) (i ∷ is) o previous blob (payload, rest, split, encoded, same, laid)
        valid =
      let (filled, above, others) = validate_terms_loop-cons previous e es valid in
      let size = encode_u64 (length e.term ∷ []) in
      let numbers = encode_u64 (o ∷ length payload ∷ length e.postings ∷ []) in
      rw (same) (
        omega (
          arith,
          length-append (size ++ (e.term ++ numbers)) (all_bytes is),
          length-append size (e.term ++ numbers),
          length-append e.term numbers,
          length-encode_u64_least (length e.term ∷ []),
          length-encode_u64_least (o ∷ length payload ∷ length e.postings ∷ []),
          is_empty-length e.term filled,
          all_bytes-least es is (o + length payload) (some e.term) rest laid others,
        ))

  -- The dictionary section of an encoded dictionary decodes to the index of its blob.
  pub decode_entries-Laid :
      (es : List TermPostingList) (is : List TermIndexEntry) (blob : List ℕ)
      → Laid 0 es is blob
      → length (all_bytes is) < 2 ^ 64
      → length blob < 2 ^ 64
      → length es ≤ max_collection_entries
      → All WellTyped es
      → validate_terms es ≡ ok tt
      → decode_entries (all_bytes is) (length es) (length blob) ≡ ok is
  unfolding decode_entries validate_terms validate_posting_ranges
  decode_entries-Laid es is blob laid fits bfits few typed valid =
      let (end, found, done) =
        decode_entries_loop-Laid es is (all_bytes is) (length blob) 0 0 none blob laid fits bfits
          (omega arith) typed valid (At-start (all_bytes is)) in
      let least = all_bytes-least es is 0 none blob laid valid in
      let ended : (end == length (all_bytes is)) ≡ true =
        (==_iff end (length (all_bytes is))).1 (At-end (all_bytes is) end done) in
      let ranges = validate_ranges_loop-Laid es is 0 blob laid (omega arith) in
      let bounded : (ltb max_collection_entries (length es)
            || ltb (length (all_bytes is) / 5) (length es))
          ≡ false =
        ground arith in
      rw (bounded, found, ended, ranges) refl
