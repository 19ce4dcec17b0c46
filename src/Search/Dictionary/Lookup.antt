-- ===== src/Search/Dictionary/Lookup.antt =====
-- What the reader of a dictionary finds in what `encode_dictionary` wrote.
use compact_core.Common.{
  ℕ, ◌+◌, ◌^◌, ◌≤◌, ◌<◌, ◌≡◌, refl, sym, ap, ◌∙◌, arith, List, [], ◌∷◌, ◌++◌, Option, none, some,
  true, false, ltb, ◌==◌, ==_iff, if◌then◌else◌, Bool-cases, inl, inr, length, length-append,
  append_assoc, append-nil, take, drop, take-length_append, drop-length_append, to_le_bytes,
  bytes_eq, bytes_eq_refl, All, IsU32, IsU64, Result, ok, >>=-eq-ok, invalid_input,
}
use compact_core.Cursor.At.{At-start, At-end, read-At, section_at-At}
use compact_core.Framing.{checksum}
use compact_core.Framing.Sealed.{sealed_sum, sealed_body, sealed_length, ==_self}
use compact_core.Primitives.Varint.{encode_u64}
use compact_core.Search.Dictionary.{
  TermPostingList, TermIndexEntry, magic, version, validate_terms, encode_entries,
  encode_dictionary, body_of,
}
use compact_core.Search.Dictionary.Entries.{
  all_bytes, WellTyped, Laid, encode_entries-Laid, decode_entries-Laid,
}
use compact_core.Search.Dictionary.Read.{
  decode_entries, ParsedDictionary, take_section, parse_body, parse, find_term, at_term, flatten,
  lookup_term, seek_term_doc,
}
use compact_core.Search.Postings.{Posting, encode_postings}
use compact_core.Search.Postings.Decode.{max_collection_entries, decode_postings, seek_doc}
use compact_core.Search.Postings.Payload.{decode_postings-encode_postings, seek_doc-encode_postings}
use compact_core.Search.Postings.RoundTrip.{Sized}
use compact_core.Search.Postings.Seek.{find_doc}
use mathlib.Core.Option

-- The posting list of a term, by a search in the list that was encoded.
unfoldable pub find_postings : List ℕ → List TermPostingList → Option (List Posting)
find_postings term [] = none
find_postings term (e ∷ es) =
    let rest = find_postings term es in if bytes_eq e.term term then some e.postings else rest

abbrev pub SizedList : TermPostingList → Type 0
SizedList e = All Sized e.postings × (length e.postings ≤ max_collection_entries)

parse_body-body_of :
    (count : ℕ) (dictionary blob : List ℕ) (entries : List TermIndexEntry)
    → IsU64 count
    → length (body_of count dictionary blob) < 2 ^ 64
    → decode_entries dictionary count (length blob) ≡ ok entries
    → parse_body (body_of count dictionary blob)
      ≡ ok (record {
        index = record { term_count = count; postings_bytes = length blob; entries = entries };
        postings_blob = blob;
      })
unfolding parse_body take_section encode_u64
parse_body-body_of count dictionary blob entries few fits decoded =
    let body = body_of count dictionary blob in
    let sizes : length dictionary + length blob ≤ length body = omega (
      arith,
      length-append (encode_u64 (count ∷ length dictionary ∷ length blob ∷ []))
          (dictionary ++ blob),
      length-append dictionary blob,
    ) in
    let overflow = invalid_input "term dictionary section length overflow" in
    let (c1, r1, at1) =
      read-At body 0 count (length dictionary ∷ length blob ∷ []) (dictionary ++ blob) few
        (At-start body) in
    let (c2, r2, at2) =
      read-At body c1 (length dictionary) (length blob ∷ []) (dictionary ++ blob) (omega arith)
        at1 in
    let (c3, r3, at3) = read-At body c2 (length blob) [] (dictionary ++ blob) (omega arith) at2 in
    let (c4, r4, at4) =
      section_at-At body c3 (length dictionary) dictionary blob overflow
        (invalid_input "term dictionary metadata is truncated") refl fits at3 in
    let (c5, r5, at5) =
      section_at-At body c4 (length blob) blob [] overflow
        (invalid_input "term dictionary postings are truncated") refl fits
        (rw (append-nil blob) at4) in
    let ended : (c5 == length body) ≡ true = (==_iff c5 (length body)).1 (At-end body c5 at5) in
    rw (r1, r2, r3, r4, r5) (rw (ended, decoded) refl)

-- What `parse` makes of an encoded dictionary.
abbrev parsed_as : List TermPostingList → List TermIndexEntry → List ℕ → ParsedDictionary
parsed_as es is blob = record {
  index = record { term_count = length es; postings_bytes = length blob; entries = is };
  postings_blob = blob;
}

module _ (hash : List ℕ → ℕ) (step : ℕ) where
  abbrev sealed_of : List ℕ → List ℕ
  sealed_of body = magic ++ (version ∷ (to_le_bytes 4 (checksum hash body) ++ body))

  parse-sealed_of :
      (body : List ℕ) → IsU32 (hash body) → parse hash (sealed_of body) ≡ parse_body body
  unfolding parse checksum
  parse-sealed_of body word =
      let long : ltb (length (sealed_of body)) 9 ≡ false =
        ground (arith, sealed_length (hash body) body word) in
      rw
        (
          long,
          bytes_eq_refl magic,
          sealed_body (hash body) body word,
          sealed_sum (hash body) body word,
          ==_self (hash body),
        )
        refl

  encode_dictionary-eq_ok :
      (es : List TermPostingList) (bytes : List ℕ)
      → encode_dictionary hash es step ≡ ok bytes
      → (is : List TermIndexEntry) × (blob : List ℕ) × (validate_terms es ≡ ok tt)
        × Laid hash step 0 es is blob
        × (bytes ≡ sealed_of (body_of (length es) (all_bytes is) blob))
  unfolding encode_dictionary
  encode_dictionary-eq_ok es bytes e =
      let (_, valid, more) = >>=-eq-ok _ (validate_terms es) e in
      let ((dictionary, blob), written, same) =
        >>=-eq-ok _ (encode_entries hash step es [] []) more in
      let (is, tail, docs, blobs, laid, count) =
        encode_entries-Laid hash step es [] [] dictionary blob written in
      (is, tail, valid, laid, ground (arith, docs, blobs))

  -- What the reader does at an entry gives what the list has for the term, when it does so for each
  -- posting list that was encoded.
  at_term-Laid {ℓ} :
      {A : Type ℓ} (run : List ℕ → Result A) (f : List Posting → A)
      → ((ps : List Posting) (payload : List ℕ)
          → All Sized ps
          → length ps ≤ max_collection_entries
          → length payload < 2 ^ 64
          → encode_postings hash ps step ≡ ok payload
          → run payload ≡ ok (f ps))
      → (term : List ℕ) (es : List TermPostingList) (is : List TermIndexEntry)
        (parsed : ParsedDictionary) (front blob : List ℕ)
      → Laid hash step (length front) es is blob
      → All SizedList es
      → length blob < 2 ^ 64
      → parsed.postings_blob ≡ front ++ blob
      → at_term run parsed (find_term term is) ≡ ok (Option.map f (find_postings term es))
  unfolding find_term find_postings
  at_term-Laid run f good term [] [] parsed front blob laid sized fits whole = refl
  at_term-Laid run f good term [] (i ∷ is) parsed front blob laid sized fits whole = elim laid [ ]
  at_term-Laid run f good term (e ∷ es) [] parsed front blob laid sized fits whole = elim laid [ ]
  at_term-Laid run f good term (e ∷ es) (i ∷ is) parsed front blob
        (payload, rest, split, encoded, same, laid) sized fits whole =
      let size : length blob ≡ length payload + length rest =
        ap length split ∙ length-append payload rest in
      elim (Bool-cases (bytes_eq e.term term)) [
        | inl hit ↦
            let found : take (length payload) (drop (length front) parsed.postings_blob) ≡ payload =
              rw (whole, split, drop-length_append front (payload ++ rest))
                (take-length_append payload rest) in
            rw (same, hit, found, good e.postings payload sized.0.0 sized.0.1 (omega arith) encoded)
              refl
        | inr miss ↦
            let next =
              at_term-Laid run f good term es is parsed (front ++ payload) rest
                (rw (length-append front payload) laid) sized.1 (omega arith)
                (whole ∙ ap (λ t. front ++ t) split ∙ sym (append_assoc front payload rest)) in
            rw (same, miss) next
      ]

  parse-encode_dictionary :
      (es : List TermPostingList) (bytes : List ℕ)
      → ((body : List ℕ) → IsU32 (hash body))
      → All WellTyped es
      → length es ≤ max_collection_entries
      → length bytes < 2 ^ 64
      → encode_dictionary hash es step ≡ ok bytes
      → (is : List TermIndexEntry) × (blob : List ℕ) × Laid hash step 0 es is blob
        × (length blob < 2 ^ 64)
        × (parse hash bytes ≡ ok (parsed_as es is blob))
  parse-encode_dictionary es bytes word typed few fits encoded =
      let (is, blob, valid, laid, same) = encode_dictionary-eq_ok es bytes encoded in
      let body = body_of (length es) (all_bytes is) blob in
      let shorter : length body < 2 ^ 64 =
        omega (arith, ap length same, length-append (to_le_bytes 4 (checksum hash body)) body) in
      let parts : length (all_bytes is) + length blob ≤ length body = omega (
        arith,
        length-append (encode_u64 (length es ∷ length (all_bytes is) ∷ length blob ∷ []))
            (all_bytes is ++ blob),
        length-append (all_bytes is) blob,
      ) in
      let decoded =
        decode_entries-Laid hash step es is blob laid (omega arith) (omega arith) few typed valid in
      (
        is,
        blob,
        laid,
        omega arith,
        rw (same) (
            parse-sealed_of body (word body)
            ∙ parse_body-body_of (length es) (all_bytes is) blob is (omega arith) shorter decoded),
      )

  module _ (es : List TermPostingList) (bytes term : List ℕ)
      (word : (body : List ℕ) → IsU32 (hash body)) (step_word : IsU64 step)
      (typed : All WellTyped es) (sized : All SizedList es)
      (few : length es ≤ max_collection_entries) (fits : length bytes < 2 ^ 64)
      (encoded : encode_dictionary hash es step ≡ ok bytes) where
    -- In a dictionary that `encode_dictionary` wrote, `lookup_term` finds what a search of the
    -- encoded list from the front finds: the posting list of the term, or none where it is not
    -- listed. The terms are `String`s, the values are u64, every collection has at most
    -- `max_collection_entries` entries, the dictionary's length and the skip step are u64 values, and
    -- the checksum has 32 bits.
    pub lookup_term-encode_dictionary : lookup_term hash bytes term ≡ ok (find_postings term es)
    unfolding lookup_term
    lookup_term-encode_dictionary =
        let (is, blob, laid, short, parsed) =
          parse-encode_dictionary es bytes word typed few fits encoded in
        rw (parsed) (
          at_term-Laid (decode_postings hash) (λ ps. ps)
            (λ ps payload s n l e.
              decode_postings-encode_postings hash ps step payload word step_word s n l e)
            term es is (parsed_as es is blob) [] blob laid sized short refl
          ∙ ap
              (λ (g : Option (List Posting) → Option (List Posting)).
                ok (g (find_postings term es)))
              Option.map-id)

    -- In such a dictionary `seek_term_doc` finds, by the skip table of the term's posting list, what a
    -- search of the encoded lists from the front finds for the term and the document, under the
    -- conditions of `lookup_term-encode_dictionary`.
    pub seek_term_doc-encode_dictionary :
        (doc_id : ℕ)
        → seek_term_doc hash bytes term doc_id
          ≡ ok (flatten (Option.map (find_doc doc_id) (find_postings term es)))
    unfolding seek_term_doc
    seek_term_doc-encode_dictionary doc_id =
        let (is, blob, laid, short, parsed) =
          parse-encode_dictionary es bytes word typed few fits encoded in
        let found =
          at_term-Laid (λ payload. seek_doc hash payload doc_id) (find_doc doc_id)
            (λ ps payload s n l e.
              seek_doc-encode_postings hash ps step payload doc_id word step_word s (omega arith) l
                e)
            term es is (parsed_as es is blob) [] blob laid sized short refl in
        rw (parsed, found) refl
