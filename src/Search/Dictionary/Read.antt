-- ===== src/Search/Dictionary/Read.antt =====
-- crates/compact-core/src/search/dictionary.rs: parsing and looking terms up.
use compact_core.Common.{
  ℕ, zero, suc, ◌/◌, List, [], ◌∷◌, Option, none, some, not, ◌||◌, ltb, ◌==◌, if◌then◌else◌, length,
  get_or, take, drop, bytes_eq, from_le_bytes, Result, ok, ◌>>=◌, ◌>>◌, ensure, CompactError,
  invalid_input, unsupported,
}
use compact_core.Cursor.{read, section_at}
use compact_core.Framing.{checksum}
use compact_core.Primitives.Delta.{checked_add, ok_or}
use compact_core.Search.Dictionary.{
  magic, version, header_len, TermIndexEntry, TermDictionaryIndex, empty_term, is_empty, after_term,
}
use compact_core.Search.Postings.{Posting, PostingListIndex}
use compact_core.Search.Postings.Decode.{
  max_collection_entries, decode_postings, inspect_postings, seek_doc,
}
use compact_core.Common.Text.{is_utf8}

pub record ParsedDictionary : Type 0 where
  pub index : TermDictionaryIndex
  pub postings_blob : List ℕ

unfoldable pub take_section : List ℕ → ℕ → ℕ → CompactError → Result (List ℕ × ℕ)
unfolding section_at
take_section = section_at (invalid_input "term dictionary section length overflow")

abbrev pub range_overflow : CompactError
range_overflow = invalid_input "term dictionary postings range overflow"

-- One round of the loop of `decode_entries`.
unfoldable pub decode_entry : List ℕ → ℕ → ℕ → Option (List ℕ) → Result (TermIndexEntry × ℕ)
unfolding take_section
decode_entry bytes postings_len cursor0 previous = do
  (term_len, cursor1) ← read bytes cursor0
  (term, cursor2) ←
      take_section bytes cursor1 term_len (invalid_input "term dictionary term is truncated")
  ensure (is_utf8 term) (invalid_input "term dictionary term is not utf-8")
  (postings_offset, cursor3) ← read bytes cursor2
  (postings_len_for_term, cursor4) ← read bytes cursor3
  (doc_count, cursor5) ← read bytes cursor4
  ensure (not (is_empty term)) empty_term
  after_term previous term
  end ← ok_or (checked_add postings_offset postings_len_for_term) range_overflow
  ensure (not (ltb postings_len end)) (invalid_input "term dictionary postings range out of bounds")
  ok (
    record {
      term = term;
      postings_offset = postings_offset;
      postings_len = postings_len_for_term;
      doc_count = doc_count;
    },
    cursor5,
  )

unfoldable pub decode_entries_loop :
    ℕ → List ℕ → ℕ → ℕ → Option (List ℕ) → Result (List TermIndexEntry × ℕ)
unfolding decode_entry
decode_entries_loop zero bytes postings_len cursor previous = ok ([], cursor)
decode_entries_loop (suc count) bytes postings_len cursor previous = do
  (entry, behind) ← decode_entry bytes postings_len cursor previous
  (entries, end) ← decode_entries_loop count bytes postings_len behind (some entry.term)
  ok (entry ∷ entries, end)

unfoldable pub validate_ranges_loop : ℕ → List TermIndexEntry → Result (Unit {0})
validate_ranges_loop expected_offset [] = ok tt
validate_ranges_loop expected_offset (entry ∷ entries) = do
  ensure (entry.postings_offset == expected_offset)
      (invalid_input "term dictionary postings ranges must be contiguous")
  next ← ok_or (checked_add expected_offset entry.postings_len) range_overflow
  validate_ranges_loop next entries

unfoldable pub validate_posting_ranges : List TermIndexEntry → Result (Unit {0})
unfolding validate_ranges_loop
validate_posting_ranges entries = validate_ranges_loop 0 entries

abbrev pub min_term_entry_len : ℕ
min_term_entry_len = 5

unfoldable pub decode_entries : List ℕ → ℕ → ℕ → Result (List TermIndexEntry)
unfolding decode_entries_loop validate_posting_ranges
decode_entries bytes term_count postings_len = do
  ensure
      (not (
        ltb max_collection_entries term_count
        || ltb (length bytes / min_term_entry_len) term_count))
      (invalid_input "term dictionary count exceeds section bounds")
  (entries, cursor) ← decode_entries_loop term_count bytes postings_len 0 none
  ensure (cursor == length bytes) (invalid_input "term dictionary metadata has trailing bytes")
  validate_posting_ranges entries
  ok entries

unfoldable pub parse_body : List ℕ → Result ParsedDictionary
unfolding take_section decode_entries
parse_body body = do
  (term_count, cursor1) ← read body 0
  (dictionary_len, cursor2) ← read body cursor1
  (postings_len, cursor3) ← read body cursor2
  (dictionary, cursor4) ←
      take_section body cursor3 dictionary_len
        (invalid_input "term dictionary metadata is truncated")
  (postings_blob, cursor5) ←
      take_section body cursor4 postings_len
        (invalid_input "term dictionary postings are truncated")
  ensure (cursor5 == length body) (invalid_input "term dictionary has trailing bytes")
  entries ← decode_entries dictionary term_count postings_len
  ok (record {
    index = record { term_count = term_count; postings_bytes = postings_len; entries = entries };
    postings_blob = postings_blob;
  })

-- `binary_search_by` on a table whose terms increase finds the one entry with that term.
unfoldable pub find_term : List ℕ → List TermIndexEntry → Option TermIndexEntry
find_term term [] = none
find_term term (entry ∷ entries) =
    let rest = find_term term entries in if bytes_eq entry.term term then some entry else rest

abbrev pub posting_payload : ParsedDictionary → TermIndexEntry → List ℕ
posting_payload parsed entry =
    take entry.postings_len (drop entry.postings_offset parsed.postings_blob)

-- `let Some(entry) = .. else { return Ok(None) }` and the call on the entry's payload.
abbrev pub at_term {ℓ} :
    {A : Type ℓ}
    → (List ℕ → Result A)
    → ParsedDictionary
    → Option TermIndexEntry
    → Result (Option A)
at_term run parsed none = ok none
at_term run parsed (some entry) = do found ← run (posting_payload parsed entry); ok (some found)

abbrev pub flatten {ℓ} : {A : Type ℓ} → Option (Option A) → Option A
flatten none = none
flatten (some found) = found

module _ (hash : List ℕ → ℕ) where
  unfoldable pub parse : List ℕ → Result ParsedDictionary
  unfolding parse_body
  parse bytes = do
    ensure (not (ltb (length bytes) header_len))
        (invalid_input "term dictionary payload is truncated")
    ensure (bytes_eq (take 4 bytes) magic) (invalid_input "term dictionary has invalid magic")
    ensure (get_or bytes 4 0 == version) (unsupported "term dictionary version")
    let expected_checksum = from_le_bytes (take 4 (drop 5 bytes))
    let body = drop header_len bytes
    ensure (checksum hash body == expected_checksum)
        (invalid_input "term dictionary checksum mismatch")
    parse_body body

  unfoldable pub inspect_dictionary : List ℕ → Result TermDictionaryIndex
  unfolding parse
  inspect_dictionary bytes = do parsed ← parse bytes; ok parsed.index

  unfoldable pub lookup_term : List ℕ → List ℕ → Result (Option (List Posting))
  unfolding parse find_term
  lookup_term bytes term = do
    parsed ← parse bytes
    at_term (decode_postings hash) parsed (find_term term parsed.index.entries)

  unfoldable pub seek_term_doc : List ℕ → List ℕ → ℕ → Result (Option Posting)
  unfolding parse find_term
  seek_term_doc bytes term doc_id = do
    parsed ← parse bytes
    found ←
        at_term (λ payload. seek_doc hash payload doc_id) parsed
          (find_term term parsed.index.entries)
    ok (flatten found)

  unfoldable pub inspect_term_postings : List ℕ → List ℕ → Result (Option PostingListIndex)
  unfolding parse find_term
  inspect_term_postings bytes term = do
    parsed ← parse bytes
    at_term (inspect_postings hash) parsed (find_term term parsed.index.entries)
