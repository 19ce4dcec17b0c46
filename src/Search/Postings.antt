-- ===== src/Search/Postings.antt =====
-- crates/compact-core/src/search/postings.rs: the data of a posting list and its encoder. The
-- checksum is `crc32fast::hash`, a dependency, and a parameter here.
pub mod Decode
pub mod Order
pub mod Positions
pub mod RoundTrip
pub mod Seek
pub mod Skips
pub mod Index
pub mod Payload
mod Tests
use compact_core.Common.{
  ℕ, ◌+◌, ◌-◌, ◌%◌, List, [], ◌∷◌, ◌++◌, Option, none, some, not, leb, ◌==◌, if◌then◌else◌, length,
  to_le_bytes, Result, ok, err, ◌>>=◌, ◌>>◌, ensure, CompactError, invalid_input,
}
use compact_core.Framing.{checksum}
use compact_core.Primitives.Varint.{encode_u64}

abbrev pub magic : List ℕ
magic = b'P' ∷ b'S' ∷ b'T' ∷ b'1' ∷ []

abbrev pub version : ℕ
version = 1

abbrev pub header_len : ℕ
header_len = 4 + 1 + 4

pub record Posting : Type 0 where
  pub doc_id : ℕ
  pub positions : List ℕ

pub record SkipEntry : Type 0 where
  pub ordinal : ℕ
  pub first_doc_id : ℕ
  pub previous_doc_id : ℕ
  pub doc_ids_offset : ℕ
  pub frequencies_offset : ℕ
  pub positions_offset : ℕ

pub record PostingListIndex : Type 0 where
  pub doc_count : ℕ
  pub skip_step : ℕ
  pub doc_ids_len : ℕ
  pub frequencies_len : ℕ
  pub positions_len : ℕ
  pub skip_entries : List SkipEntry

abbrev pub falling_docs : CompactError
falling_docs = invalid_input "posting docIDs must be strictly increasing"

abbrev pub falling_positions : CompactError
falling_positions = invalid_input "posting positions must be strictly increasing"

abbrev pub zero_step : CompactError
zero_step = invalid_input "posting skip step must be non-zero"

-- The loop over `positions.windows(2)`, behind the position `previous`.
pub validate_windows : ℕ → List ℕ → Result (Unit {0})
validate_windows previous [] = ok tt
validate_windows previous (position ∷ positions) = do
  ensure (not (leb position previous)) falling_positions
  validate_windows position positions

unfoldable pub validate_positions : List ℕ → Result (Unit {0})
unfolding validate_windows
validate_positions [] = ok tt
validate_positions (first ∷ positions) = validate_windows first positions

-- `previous_doc_id` of the loop of `validate_postings` and of `validate_index`.
abbrev pub after : Option ℕ → ℕ → CompactError → Result (Unit {0})
after none current failure = ok tt
after (some previous) current failure = ensure (not (leb current previous)) failure

pub validate_postings_loop : Option ℕ → List Posting → Result (Unit {0})
unfolding validate_positions
validate_postings_loop previous [] = ok tt
validate_postings_loop previous (posting ∷ postings) = do
  after previous posting.doc_id falling_docs
  validate_positions posting.positions
  validate_postings_loop (some posting.doc_id) postings

unfoldable pub validate_postings : List Posting → Result (Unit {0})
unfolding validate_postings_loop
validate_postings postings = validate_postings_loop none postings

unfoldable pub position_deltas : ℕ → List ℕ → List ℕ
position_deltas previous [] = []
position_deltas previous (position ∷ positions) =
    (position - previous) ∷ position_deltas position positions

unfoldable pub encode_position_deltas : List ℕ → List ℕ
unfolding position_deltas
encode_position_deltas positions = encode_u64 (position_deltas 0 positions)

-- The vectors `doc_ids`, `frequencies`, `positions` and `skips` of `encode_postings`.
pub record Sections : Type 0 where
  pub doc_ids : List ℕ
  pub frequencies : List ℕ
  pub positions : List ℕ
  pub skips : List SkipEntry

abbrev pub no_sections : Sections
no_sections = record { doc_ids = []; frequencies = []; positions = []; skips = [] }

-- One round of the loop of `encode_postings`.
unfoldable pub encode_posting : ℕ → ℕ → ℕ → Posting → Sections → Sections
unfolding encode_position_deltas
encode_posting skip_step ordinal previous_doc_id posting s =
    let entry : SkipEntry = record {
      ordinal = ordinal;
      first_doc_id = posting.doc_id;
      previous_doc_id = previous_doc_id;
      doc_ids_offset = length s.doc_ids;
      frequencies_offset = length s.frequencies;
      positions_offset = length s.positions;
    } in
    record {
      doc_ids = s.doc_ids ++ encode_u64 ((posting.doc_id - previous_doc_id) ∷ []);
      frequencies = s.frequencies ++ encode_u64 (length posting.positions ∷ []);
      positions = s.positions ++ encode_position_deltas posting.positions;
      skips = if ordinal % skip_step == 0 then s.skips ++ entry ∷ [] else s.skips;
    }

unfoldable pub encode_postings_loop : ℕ → ℕ → ℕ → List Posting → Sections → Sections
encode_postings_loop skip_step ordinal previous_doc_id [] s = s
encode_postings_loop skip_step ordinal previous_doc_id (posting ∷ postings) s =
    encode_postings_loop skip_step (ordinal + 1) posting.doc_id postings
      (encode_posting skip_step ordinal previous_doc_id posting s)

-- The loop that writes `skip_bytes`.
unfoldable pub encode_skips : List SkipEntry → List ℕ
encode_skips [] = []
encode_skips (entry ∷ skips) =
    encode_u64 (
      entry.ordinal ∷ entry.first_doc_id ∷ entry.previous_doc_id ∷ entry.doc_ids_offset
      ∷ entry.frequencies_offset ∷ entry.positions_offset ∷ [])
    ++ encode_skips skips

unfoldable pub encode_body : ℕ → ℕ → Sections → List ℕ
unfolding encode_skips
encode_body count skip_step s =
    let skip_bytes = encode_skips s.skips in
    encode_u64 (
      count
      ∷ skip_step
      ∷ length s.doc_ids
      ∷ length s.frequencies
      ∷ length s.positions
      ∷ length skip_bytes
      ∷ [])
    ++ (s.doc_ids ++ (s.frequencies ++ (s.positions ++ skip_bytes)))

module _ (hash : List ℕ → ℕ) where
  unfoldable pub encode_postings : List Posting → ℕ → Result (List ℕ)
  unfolding encode_body encode_postings_loop encode_posting
  encode_postings postings skip_step = do
    ensure (not (skip_step == 0)) zero_step
    validate_postings postings
    let s = encode_postings_loop skip_step 0 0 postings no_sections
    let body = encode_body (length postings) skip_step s
    ok (magic ++ (version ∷ (to_le_bytes 4 (checksum hash body) ++ body)))
