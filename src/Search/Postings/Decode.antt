-- ===== src/Search/Postings/Decode.antt =====
-- crates/compact-core/src/search/postings.rs: parsing, decoding and seeking.
use compact_core.Common.{
  ℕ, zero, suc, ◌+◌, ◌-◌, ◌*◌, ◌/◌, List, [], ◌∷◌, Option, none, some, not, ◌||◌, ltb, leb, ◌==◌,
  if◌then◌else◌, length, get_or, take, drop, bytes_eq, from_le_bytes, Result, ok, ◌>>=◌, ◌>>◌,
  ensure, CompactError, invalid_input, unsupported,
}
use compact_core.Cursor.{read, section_at}
use compact_core.Framing.{checksum}
use compact_core.Primitives.Delta.{checked_add, ok_or}
use compact_core.Search.Postings.{
  magic, version, header_len, Posting, SkipEntry, PostingListIndex, zero_step, validate_positions,
  validate_postings, after,
}

-- crates/compact-core/src/limits.rs
abbrev pub max_collection_entries : ℕ
max_collection_entries = 1000000

pub record ParsedPostingList : Type 0 where
  pub index : PostingListIndex
  pub doc_ids : List ℕ
  pub frequencies : List ℕ
  pub positions : List ℕ

unfoldable pub take_section : List ℕ → ℕ → ℕ → CompactError → Result (List ℕ × ℕ)
unfolding section_at
take_section = section_at (invalid_input "posting section length overflow")

-- The loop of `read_positions`.
unfoldable pub read_positions_loop : ℕ → List ℕ → ℕ → ℕ → Result (List ℕ × ℕ)
unfolding read
read_positions_loop zero bytes cursor previous = ok ([], cursor)
read_positions_loop (suc count) bytes cursor previous = do
  (delta, behind) ← read bytes cursor
  position ← ok_or (checked_add previous delta) (invalid_input "posting position decode overflow")
  (positions, end) ← read_positions_loop count bytes behind position
  ok (position ∷ positions, end)

unfoldable pub read_positions : List ℕ → ℕ → ℕ → Result (List ℕ × ℕ)
unfolding read_positions_loop
read_positions bytes cursor count = do
  ensure (not (ltb max_collection_entries count || ltb (length bytes - cursor) count))
      (invalid_input "posting frequency exceeds positions section bounds")
  (positions, end) ← read_positions_loop count bytes cursor 0
  validate_positions positions
  ok (positions, end)

unfoldable pub read_skip : List ℕ → ℕ → Result (SkipEntry × ℕ)
unfolding read
read_skip bytes cursor0 = do
  (ordinal, cursor1) ← read bytes cursor0
  (first_doc_id, cursor2) ← read bytes cursor1
  (previous_doc_id, cursor3) ← read bytes cursor2
  (doc_ids_offset, cursor4) ← read bytes cursor3
  (frequencies_offset, cursor5) ← read bytes cursor4
  (positions_offset, cursor6) ← read bytes cursor5
  ok (
    record {
      ordinal = ordinal;
      first_doc_id = first_doc_id;
      previous_doc_id = previous_doc_id;
      doc_ids_offset = doc_ids_offset;
      frequencies_offset = frequencies_offset;
      positions_offset = positions_offset;
    },
    cursor6,
  )

-- `while cursor < data.len()`. A round moves the cursor, so `data.len()` rounds are enough.
unfoldable pub decode_skips_loop : ℕ → List ℕ → ℕ → Result (List SkipEntry)
unfolding read_skip
decode_skips_loop zero bytes cursor = ok []
decode_skips_loop (suc fuel) bytes cursor =
    let more = (do
      (entry, behind) ← read_skip bytes cursor
      entries ← decode_skips_loop fuel bytes behind
      ok (entry ∷ entries)) in
    if ltb cursor (length bytes) then more else ok []

unfoldable pub decode_skips : List ℕ → Result (List SkipEntry)
unfolding decode_skips_loop
decode_skips bytes = decode_skips_loop (length bytes) bytes 0

-- `doc_count.div_ceil(skip_step)`
abbrev pub expected_skips : ℕ → ℕ → ℕ
expected_skips doc_count skip_step =
    if doc_count == 0 then 0 else (doc_count + skip_step - 1) / skip_step

-- The loop of `validate_index`.
unfoldable pub validate_entries :
    ℕ → Option ℕ → PostingListIndex → List SkipEntry → Result (Unit {0})
validate_entries idx previous index [] = ok tt
validate_entries idx previous index (entry ∷ entries) = do
  ensure (entry.ordinal == idx * index.skip_step) (invalid_input "posting skip ordinal mismatch")
  ensure (ltb entry.ordinal index.doc_count) (invalid_input "posting skip ordinal out of range")
  after previous entry.first_doc_id (invalid_input "posting skip docIDs must be increasing")
  ensure
      (not (
        ltb index.doc_ids_len entry.doc_ids_offset
        || ltb index.frequencies_len entry.frequencies_offset
        || ltb index.positions_len entry.positions_offset))
      (invalid_input "posting skip offset out of range")
  validate_entries (idx + 1) (some entry.first_doc_id) index entries

unfoldable pub validate_index : PostingListIndex → Result (Unit {0})
unfolding validate_entries
validate_index index = do
  ensure (length index.skip_entries == expected_skips index.doc_count index.skip_step)
      (invalid_input "posting skip count mismatch")
  validate_entries 0 none index index.skip_entries

unfoldable pub parse_body : List ℕ → Result ParsedPostingList
unfolding read take_section decode_skips validate_index
parse_body body = do
  (doc_count, cursor1) ← read body 0
  (skip_step, cursor2) ← read body cursor1
  (doc_ids_len, cursor3) ← read body cursor2
  (frequencies_len, cursor4) ← read body cursor3
  (positions_len, cursor5) ← read body cursor4
  (skip_len, cursor6) ← read body cursor5
  ensure (not (skip_step == 0)) zero_step
  (doc_ids, cursor7) ←
      take_section body cursor6 doc_ids_len (invalid_input "posting docIDs are truncated")
  (frequencies, cursor8) ←
      take_section body cursor7 frequencies_len (invalid_input "posting frequencies are truncated")
  (positions, cursor9) ←
      take_section body cursor8 positions_len (invalid_input "posting positions are truncated")
  (skip_bytes, cursor10) ←
      take_section body cursor9 skip_len (invalid_input "posting skip table is truncated")
  ensure (cursor10 == length body) (invalid_input "posting payload has trailing bytes")
  skip_entries ← decode_skips skip_bytes
  let index : PostingListIndex = record {
    doc_count = doc_count;
    skip_step = skip_step;
    doc_ids_len = doc_ids_len;
    frequencies_len = frequencies_len;
    positions_len = positions_len;
    skip_entries = skip_entries;
  }
  validate_index index
  ok (record { index = index; doc_ids = doc_ids; frequencies = frequencies; positions = positions })

-- One round of the loops of `decode_all` and `seek_doc`: the posting and the three cursors.
pub record Cursors : Type 0 where
  pub doc : ℕ
  pub freq : ℕ
  pub pos : ℕ

unfoldable pub read_posting : ParsedPostingList → ℕ → Cursors → Result (Posting × Cursors)
unfolding read read_positions
read_posting parsed previous_doc_id at = do
  (delta, doc) ← read parsed.doc_ids at.doc
  doc_id ← ok_or (checked_add previous_doc_id delta) (invalid_input "posting docID decode overflow")
  (frequency, freq) ← read parsed.frequencies at.freq
  (positions, pos) ← read_positions parsed.positions at.pos frequency
  ok (
    record { doc_id = doc_id; positions = positions },
    record { doc = doc; freq = freq; pos = pos },
  )

unfoldable pub decode_all_loop :
    ℕ → ParsedPostingList → ℕ → Cursors → Result (List Posting × Cursors)
unfolding read_posting
decode_all_loop zero parsed previous_doc_id at = ok ([], at)
decode_all_loop (suc count) parsed previous_doc_id at = do
  (posting, behind) ← read_posting parsed previous_doc_id at
  (postings, end) ← decode_all_loop count parsed posting.doc_id behind
  ok (posting ∷ postings, end)

unfoldable pub decode_all : ParsedPostingList → Result (List Posting)
unfolding decode_all_loop
decode_all parsed = do
  let count = parsed.index.doc_count
  ensure
      (not (
        ltb max_collection_entries count
        || ltb (length parsed.doc_ids) count
        || ltb (length parsed.frequencies) count))
      (invalid_input "posting count exceeds section bounds")
  (postings, end) ← decode_all_loop count parsed 0 (record { doc = 0; freq = 0; pos = 0 })
  ensure
      (not (
        not (end.doc == length parsed.doc_ids)
        || not (end.freq == length parsed.frequencies)
        || not (end.pos == length parsed.positions)))
      (invalid_input "posting section has trailing bytes")
  validate_postings postings
  ok postings

-- `partition_point` on a table whose docIDs increase is the length of the part up to the target;
-- the entry before that point is the last of the part.
unfoldable pub skip_before_or_at : ℕ → Option SkipEntry → List SkipEntry → Option SkipEntry
skip_before_or_at target_doc_id last [] = last
skip_before_or_at target_doc_id last (entry ∷ entries) =
    let next = skip_before_or_at target_doc_id (some entry) entries in
    if leb entry.first_doc_id target_doc_id then next else last

-- The loop of `seek_doc`, over the `doc_count - ordinal` postings to go.
unfoldable pub seek_loop : ℕ → ParsedPostingList → ℕ → ℕ → Cursors → Result (Option Posting)
unfolding read_posting
seek_loop zero parsed target_doc_id previous_doc_id at = ok none
seek_loop (suc count) parsed target_doc_id previous_doc_id at = do
  (posting, behind) ← read_posting parsed previous_doc_id at
  let rest = seek_loop count parsed target_doc_id posting.doc_id behind
  if posting.doc_id == target_doc_id
      then ok (some posting)
      else if ltb target_doc_id posting.doc_id
      then ok none
      else rest

unfoldable pub seek_from : ParsedPostingList → ℕ → Option SkipEntry → Result (Option Posting)
unfolding seek_loop
seek_from parsed target_doc_id none = ok none
seek_from parsed target_doc_id (some skip) =
    seek_loop (parsed.index.doc_count - skip.ordinal) parsed target_doc_id skip.previous_doc_id
      (record {
        doc = skip.doc_ids_offset;
        freq = skip.frequencies_offset;
        pos = skip.positions_offset;
      })

module _ (hash : List ℕ → ℕ) where
  unfoldable pub parse : List ℕ → Result ParsedPostingList
  unfolding parse_body
  parse bytes = do
    ensure (not (ltb (length bytes) header_len)) (invalid_input "posting payload is truncated")
    ensure (bytes_eq (take 4 bytes) magic) (invalid_input "posting payload has invalid magic")
    ensure (get_or bytes 4 0 == version) (unsupported "posting payload version")
    let expected_checksum = from_le_bytes (take 4 (drop 5 bytes))
    let body = drop header_len bytes
    ensure (checksum hash body == expected_checksum) (invalid_input "posting checksum mismatch")
    parse_body body

  unfoldable pub decode_postings : List ℕ → Result (List Posting)
  unfolding parse decode_all
  decode_postings bytes = do parsed ← parse bytes; decode_all parsed

  unfoldable pub inspect_postings : List ℕ → Result PostingListIndex
  unfolding parse
  inspect_postings bytes = do parsed ← parse bytes; ok parsed.index

  unfoldable pub seek_doc : List ℕ → ℕ → Result (Option Posting)
  unfolding parse seek_from skip_before_or_at
  seek_doc bytes target_doc_id = do
    parsed ← parse bytes
    seek_from parsed target_doc_id (skip_before_or_at target_doc_id none parsed.index.skip_entries)
