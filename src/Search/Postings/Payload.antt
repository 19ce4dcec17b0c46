-- ===== src/Search/Postings/Payload.antt =====
-- The whole payload: `decode_postings` on what `encode_postings` writes.
use compact_core.Common.{
  ℕ, ◌+◌, ◌^◌, ◌≤◌, ◌<◌, ◌≡◌, refl, ap, ◌∙◌, arith, List, [], ◌∷◌, ◌++◌, length, length-append,
  append-nil, All, IsU32, IsU64, ok, >>=-eq-ok, to_le_bytes, ◌>>◌, ensure, not, ◌==◌, ==_iff, true,
  false, ltb, bytes_eq_refl, invalid_input,
}
use compact_core.Framing.{checksum}
use compact_core.Framing.Sealed.{sealed_sum, sealed_body, sealed_length, ==_self}
use compact_core.Primitives.Varint.{encode_u64}
use compact_core.Search.Postings.{
  Posting, PostingListIndex, Sections, no_sections, encode_postings_loop, encode_body, encode_skips,
  encode_postings, validate_postings, magic, version, zero_step,
}
use compact_core.Search.Postings.Decode.{
  seek_doc, parse, parse_body, decode_postings, max_collection_entries, validate_index,
}
use compact_core.Search.Postings.Order.{Ordered, validate_postings_iff}
use compact_core.Cursor.At.{At-start, At-end, read-At, section_at-At}
use compact_core.Search.Postings.RoundTrip.{Sized, parsed_of, decode_all-encode_postings_loop}
use compact_core.Search.Postings.Seek.{find_doc, seek_from-all}
use compact_core.Search.Postings.Skips.{
  entries_from, skips-entries_from, WordEntry, decode_skips-encode_skips,
}
use compact_core.Search.Postings.Index.{validate_index-entries_from, entries_from-All_WordEntry}

abbrev index_of : ℕ → ℕ → Sections → PostingListIndex
index_of count step s = record {
  doc_count = count;
  skip_step = step;
  doc_ids_len = length s.doc_ids;
  frequencies_len = length s.frequencies;
  positions_len = length s.positions;
  skip_entries = s.skips;
}

length-encode_body :
    (count step : ℕ) (s : Sections)
    → length s.doc_ids
        + (length s.frequencies + (length s.positions + length (encode_skips s.skips)))
      ≤ length (encode_body count step s)
unfolding encode_body
length-encode_body count step s =
    let skip_bytes = encode_skips s.skips in
    let sections = s.doc_ids ++ (s.frequencies ++ (s.positions ++ skip_bytes)) in
    let numbers =
      count
      ∷ step
      ∷ length s.doc_ids
      ∷ length s.frequencies
      ∷ length s.positions
      ∷ length skip_bytes
      ∷ [] in
    omega (
      arith,
      length-append (encode_u64 numbers) sections,
      length-append s.doc_ids (s.frequencies ++ (s.positions ++ skip_bytes)),
      length-append s.frequencies (s.positions ++ skip_bytes),
      length-append s.positions skip_bytes,
    )

parse_body-encode_body :
    (count step : ℕ) (s : Sections)
    → 0 < step
    → IsU64 step
    → IsU64 count
    → All WordEntry s.skips
    → validate_index (index_of count step s) ≡ ok tt
    → length (encode_body count step s) < 2 ^ 64
    → parse_body (encode_body count step s)
      ≡ ok (record {
        index = index_of count step s;
        doc_ids = s.doc_ids;
        frequencies = s.frequencies;
        positions = s.positions;
      })
unfolding parse_body encode_body encode_u64
parse_body-encode_body count step s pos word few entries valid fits =
    let skip_bytes = encode_skips s.skips in
    let body = encode_body count step s in
    let sections = s.doc_ids ++ (s.frequencies ++ (s.positions ++ skip_bytes)) in
    let l1 = length s.doc_ids in
    let l2 = length s.frequencies in
    let l3 = length s.positions in
    let l4 = length skip_bytes in
    let sizes : l1 + (l2 + (l3 + l4)) ≤ length body = length-encode_body count step s in
    let (c1, r1, at1) =
      read-At body 0 count (step ∷ l1 ∷ l2 ∷ l3 ∷ l4 ∷ []) sections few (At-start body) in
    let (c2, r2, at2) = read-At body c1 step (l1 ∷ l2 ∷ l3 ∷ l4 ∷ []) sections word at1 in
    let (c3, r3, at3) = read-At body c2 l1 (l2 ∷ l3 ∷ l4 ∷ []) sections (omega arith) at2 in
    let (c4, r4, at4) = read-At body c3 l2 (l3 ∷ l4 ∷ []) sections (omega arith) at3 in
    let (c5, r5, at5) = read-At body c4 l3 (l4 ∷ []) sections (omega arith) at4 in
    let (c6, r6, at6) = read-At body c5 l4 [] sections (omega arith) at5 in
    let (c7, r7, at7) =
      section_at-At body c6 l1 s.doc_ids (s.frequencies ++ (s.positions ++ skip_bytes))
        (invalid_input "posting section length overflow")
        (invalid_input "posting docIDs are truncated") refl fits at6 in
    let (c8, r8, at8) =
      section_at-At body c7 l2 s.frequencies (s.positions ++ skip_bytes)
        (invalid_input "posting section length overflow")
        (invalid_input "posting frequencies are truncated") refl fits at7 in
    let (c9, r9, at9) =
      section_at-At body c8 l3 s.positions skip_bytes
        (invalid_input "posting section length overflow")
        (invalid_input "posting positions are truncated") refl fits at8 in
    let (c10, r10, at10) =
      section_at-At body c9 l4 skip_bytes [] (invalid_input "posting section length overflow")
        (invalid_input "posting skip table is truncated") refl fits
        (rw (append-nil skip_bytes) at9) in
    let ended : (c10 == length body) ≡ true = (==_iff c10 (length body)).1 (At-end body c10 at10) in
    let stepped : not (step == 0) ≡ true = ground arith in
    rw (r1, r2, r3, r4, r5, r6)
      (rw (stepped, r7, r8, r9, r10)
        (rw (ended, decode_skips-encode_skips s.skips entries, valid) refl))

module _ (hash : List ℕ → ℕ) where
  abbrev payload_of : List ℕ → List ℕ
  payload_of body = magic ++ (version ∷ (to_le_bytes 4 (checksum hash body) ++ body))

  parse-payload_of :
      (body : List ℕ) → IsU32 (hash body) → parse hash (payload_of body) ≡ parse_body body
  unfolding parse checksum
  parse-payload_of body word =
      let long : ltb (length (payload_of body)) 9 ≡ false =
        ground (arith, sealed_length (hash body) body word) in
      rw
        (
          long,
          bytes_eq_refl magic,
          sealed_body (hash body) body word,
          sealed_sum (hash body) body word,
          ==_self (hash body),
        )
        refl

  abbrev body_of : List Posting → ℕ → List ℕ
  body_of ps step = encode_body (length ps) step (encode_postings_loop step 0 0 ps no_sections)

  encode_postings-eq_ok :
      (ps : List Posting) (step : ℕ) (bytes : List ℕ)
      → encode_postings hash ps step ≡ ok bytes
      → (0 < step) × Ordered ps × (bytes ≡ payload_of (body_of ps step))
  unfolding encode_postings
  encode_postings-eq_ok ps step bytes e =
      let written = ok (payload_of (body_of ps step)) in
      let (_, stepped, more) =
        >>=-eq-ok (λ _. validate_postings ps >> written) (ensure (not (step == 0)) zero_step) e in
      let (_, valid, same) = >>=-eq-ok (λ _. written) (validate_postings ps) more in
      (ground arith, (validate_postings_iff ps).0 valid, ground arith)

  parse-encoded :
      (ps : List Posting) (step : ℕ)
      → IsU32 (hash (body_of ps step))
      → 0 < step
      → IsU64 step
      → Ordered ps
      → All Sized ps
      → length ps < 2 ^ 64
      → length (body_of ps step) < 2 ^ 64
      → parse hash (payload_of (body_of ps step))
        ≡ ok (parsed_of ps step (entries_from step 0 0 ps no_sections))
  parse-encoded ps step crc pos word ordered sized few fits =
      let s = encode_postings_loop step 0 0 ps no_sections in
      let sizes = length-encode_body (length ps) step s in
      let table : s.skips ≡ entries_from step 0 0 ps no_sections =
        skips-entries_from step 0 0 ps no_sections in
      let words : All WordEntry s.skips =
        rw (table)
          (entries_from-All_WordEntry ps step few sized (omega arith, omega arith, omega arith)) in
      let valid : validate_index (index_of (length ps) step s) ≡ ok tt =
        rw (table) (validate_index-entries_from ps step pos ordered.0) in
      parse-payload_of (body_of ps step) crc
      ∙ parse_body-encode_body (length ps) step s pos word few words valid fits
      ∙ ap (λ t. ok (parsed_of ps step t)) table

  parse-encode_postings :
      (ps : List Posting) (step : ℕ) (bytes : List ℕ)
      → ((body : List ℕ) → IsU32 (hash body))
      → IsU64 step
      → All Sized ps
      → length ps < 2 ^ 64
      → length bytes < 2 ^ 64
      → encode_postings hash ps step ≡ ok bytes
      → Ordered ps
        × (parse hash bytes ≡ ok (parsed_of ps step (entries_from step 0 0 ps no_sections)))
  parse-encode_postings ps step bytes word step_word sized few fits encoded =
      let (pos, ordered, same) = encode_postings-eq_ok ps step bytes encoded in
      let body = body_of ps step in
      let shorter : length body < 2 ^ 64 =
        omega (arith, ap length same, length-append (to_le_bytes 4 (checksum hash body)) body) in
      (
        ordered,
        rw (same) (parse-encoded ps step (word body) pos step_word ordered sized few shorter),
      )

  -- A posting list that `encode_postings` accepts, of at most `max_collection_entries` postings with
  -- at most so many positions each and of u64 values, decodes to itself, when the payload's length and
  -- the skip step are u64 values and the checksum has 32 bits.
  pub decode_postings-encode_postings :
      (ps : List Posting) (step : ℕ) (bytes : List ℕ)
      → ((body : List ℕ) → IsU32 (hash body))
      → IsU64 step
      → All Sized ps
      → length ps ≤ max_collection_entries
      → length bytes < 2 ^ 64
      → encode_postings hash ps step ≡ ok bytes
      → decode_postings hash bytes ≡ ok ps
  unfolding decode_postings
  decode_postings-encode_postings ps step bytes word step_word sized few fits encoded =
      let (ordered, parsed) =
        parse-encode_postings ps step bytes word step_word sized (omega arith) fits encoded in
      rw (parsed) (
        decode_all-encode_postings_loop ps step (entries_from step 0 0 ps no_sections) ordered sized
          few)

  -- In a payload that `encode_postings` wrote, `seek_doc` finds by the skip table what a search of
  -- the list from the front finds: the posting of the document, or none where it is not listed. The
  -- values are u64, each posting has at most `max_collection_entries` positions, the number of
  -- postings, the payload's length and the skip step are u64 values, and the checksum has 32 bits.
  pub seek_doc-encode_postings :
      (ps : List Posting) (step : ℕ) (bytes : List ℕ) (target : ℕ)
      → ((body : List ℕ) → IsU32 (hash body))
      → IsU64 step
      → All Sized ps
      → length ps < 2 ^ 64
      → length bytes < 2 ^ 64
      → encode_postings hash ps step ≡ ok bytes
      → seek_doc hash bytes target ≡ ok (find_doc target ps)
  unfolding seek_doc
  seek_doc-encode_postings ps step bytes target word step_word sized few fits encoded =
      let (ordered, parsed) =
        parse-encode_postings ps step bytes word step_word sized few fits encoded in
      rw (parsed) (
        seek_from-all (parsed_of ps step (entries_from step 0 0 ps no_sections)) target ps step refl
          ordered sized (refl, refl, refl))
