-- ===== src/Search/Dictionary.antt =====
-- crates/compact-core/src/search/dictionary.rs. A term is a `str`, as its bytes. The checksum is
-- `crc32fast::hash`, a dependency, and a parameter.
pub mod Read
pub mod Entries
pub mod Lookup
pub mod Samples
mod Tests
use compact_core.Common.{
  ℕ, ◌+◌, List, [], ◌∷◌, ◌++◌, Bool, true, false, not, Option, none, some, length, to_le_bytes,
  Result, ok, err, ◌>>=◌, ◌>>◌, ensure, CompactError, invalid_input,
}
use compact_core.Framing.{checksum}
use compact_core.Primitives.Varint.{encode_u64}
use compact_core.Search.Postings.{Posting, encode_postings}
use compact_core.Common.Text.{text_ltb}

abbrev pub magic : List ℕ
magic = b'T' ∷ b'R' ∷ b'M' ∷ b'1' ∷ []

abbrev pub version : ℕ
version = 1

abbrev pub header_len : ℕ
header_len = 4 + 1 + 4

pub record TermPostingList : Type 0 where
  pub term : List ℕ
  pub postings : List Posting

pub record TermIndexEntry : Type 0 where
  pub term : List ℕ
  pub postings_offset : ℕ
  pub postings_len : ℕ
  pub doc_count : ℕ

pub record TermDictionaryIndex : Type 0 where
  pub term_count : ℕ
  pub postings_bytes : ℕ
  pub entries : List TermIndexEntry

abbrev pub empty_term : CompactError
empty_term = invalid_input "term dictionary term must be non-empty"

abbrev pub falling_terms : CompactError
falling_terms = invalid_input "term dictionary terms must be strictly increasing"

abbrev pub is_empty : List ℕ → Bool
is_empty [] = true
is_empty (b ∷ bytes) = false

-- `term > previous`, where there is a previous term.
abbrev pub after_term : Option (List ℕ) → List ℕ → Result (Unit {0})
after_term none term = ok tt
after_term (some previous) term = ensure (text_ltb previous term) falling_terms

unfoldable pub validate_terms_loop : Option (List ℕ) → List TermPostingList → Result (Unit {0})
validate_terms_loop previous [] = ok tt
validate_terms_loop previous (entry ∷ entries) = do
  ensure (not (is_empty entry.term)) empty_term
  after_term previous entry.term
  validate_terms_loop (some entry.term) entries

unfoldable pub validate_terms : List TermPostingList → Result (Unit {0})
unfolding validate_terms_loop
validate_terms entries = validate_terms_loop none entries

-- The bytes of one entry of the `dictionary` section.
abbrev pub entry_bytes : TermIndexEntry → List ℕ
entry_bytes e =
    encode_u64 (length e.term ∷ [])
    ++ (e.term ++ encode_u64 (e.postings_offset ∷ e.postings_len ∷ e.doc_count ∷ []))

-- The vector `body`.
abbrev pub body_of : ℕ → List ℕ → List ℕ → List ℕ
body_of count dictionary postings_blob =
    encode_u64 (count ∷ length dictionary ∷ length postings_blob ∷ [])
    ++ (dictionary ++ postings_blob)

module _ (hash : List ℕ → ℕ) where
  -- The loop of `encode_dictionary`, which fills `dictionary` and `postings_blob`.
  unfoldable pub encode_entries :
      ℕ → List TermPostingList → List ℕ → List ℕ → Result (List ℕ × List ℕ)
  encode_entries skip_step [] dictionary postings_blob = ok (dictionary, postings_blob)
  encode_entries skip_step (entry ∷ entries) dictionary postings_blob = do
    encoded_postings ← encode_postings hash entry.postings skip_step
    let written : TermIndexEntry = record {
      term = entry.term;
      postings_offset = length postings_blob;
      postings_len = length encoded_postings;
      doc_count = length entry.postings;
    }
    encode_entries skip_step entries (dictionary ++ entry_bytes written)
        (postings_blob ++ encoded_postings)

  unfoldable pub encode_dictionary : List TermPostingList → ℕ → Result (List ℕ)
  unfolding encode_entries
  encode_dictionary entries skip_step = do
    validate_terms entries
    (dictionary, postings_blob) ← encode_entries skip_step entries [] []
    let body = body_of (length entries) dictionary postings_blob
    ok (magic ++ (version ∷ (to_le_bytes 4 (checksum hash body) ++ body)))
