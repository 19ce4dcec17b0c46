-- ===== src/Search/Postings/Tests.antt =====
-- The source's tests, and the theorems at concrete inputs.
use compact_core.Common.{
  ℕ, All, IsU32, ◌+◌, ◌%◌, ◌^◌, ◌≡◌, refl, arith, List, [], ◌∷◌, Option, none, some, Result, ok,
  err, ◌>>=◌, map, to_le_bytes, from_le_bytes, bytes_eq,
}
use compact_core.Framing.{checksum}
use compact_core.Primitives.Varint.{encode_u64, read_u64}
use compact_core.Search.Postings.RoundTrip.{Sized}
use compact_core.Search.Postings.Seek.{find_doc}
use compact_core.Search.Postings.Payload.{seek_doc-encode_postings, decode_postings-encode_postings}
use compact_core.Search.Postings.{
  validate_postings, Posting, SkipEntry, encode_postings, zero_step, falling_docs,
  falling_positions,
}
use compact_core.Search.Postings.Decode.{decode_postings, inspect_postings, seek_doc}

abbrev sum : List ℕ → ℕ
sum [] = 0
sum (b ∷ bytes) = (b + sum bytes) % 2 ^ 32

abbrev posting : ℕ → List ℕ → Posting
posting doc_id positions = record { doc_id = doc_id; positions = positions }

abbrev sample_postings : List Posting
sample_postings =
    posting 1 (0 ∷ 8 ∷ 12 ∷ [])
    ∷ posting 3 (2 ∷ [])
    ∷ posting 10 (1 ∷ 9 ∷ [])
    ∷ posting 15 []
    ∷ posting 30 (4 ∷ 64 ∷ 1024 ∷ [])
    ∷ []

sample_roundtrips :
    (do bytes ← encode_postings sum sample_postings 2; decode_postings sum bytes)
    ≡ ok sample_postings
unfolding encode_postings decode_postings validate_postings to_le_bytes encode_u64 bytes_eq checksum
    from_le_bytes read_u64
sample_roundtrips = refl

sample_skips :
    (do
      bytes ← encode_postings sum sample_postings 2
      index ← inspect_postings sum bytes
      ok (map {B = ℕ × ℕ} (λ (e : SkipEntry). (e.ordinal, e.first_doc_id)) index.skip_entries))
    ≡ ok ((0, 1) ∷ (2, 10) ∷ (4, 30) ∷ [])
unfolding encode_postings inspect_postings validate_postings to_le_bytes encode_u64 bytes_eq
    checksum from_le_bytes read_u64
sample_skips = refl

abbrev sought : ℕ → Result (Option Posting)
sought target = do bytes ← encode_postings sum sample_postings 2; seek_doc sum bytes target

sample_sought :
    (sought 10 ≡ ok (some (posting 10 (1 ∷ 9 ∷ []))))
    × (sought 15 ≡ ok (some (posting 15 [])))
    × (sought 2 ≡ ok none)
    × (sought 31 ≡ ok none)
unfolding encode_postings seek_doc validate_postings to_le_bytes encode_u64 bytes_eq checksum
    from_le_bytes read_u64
sample_sought = (refl, refl, refl, refl)

refusals :
    (encode_postings sum sample_postings 0 ≡ err zero_step)
    × (encode_postings sum (posting 3 [] ∷ posting 3 [] ∷ []) 2 ≡ err falling_docs)
    × (encode_postings sum (posting 1 (1 ∷ 1 ∷ []) ∷ []) 2 ≡ err falling_positions)
unfolding encode_postings validate_postings
refusals = (refl, refl, refl)

abbrev two_postings : List Posting
two_postings = posting 1 (0 ∷ 8 ∷ []) ∷ posting 3 [] ∷ []

abbrev two_sized : All Sized two_postings
two_sized = (
  (omega arith, (omega arith, (omega arith, tt)), omega arith),
  ((omega arith, tt, omega arith), tt),
)

sum-IsU32 : (bytes : List ℕ) → IsU32 (sum bytes)
sum-IsU32 [] = omega arith
sum-IsU32 (b ∷ bytes) = omega arith

abbrev two_bytes : List ℕ
two_bytes =
    b'P' ∷ b'S' ∷ b'T' ∷ b'1' ∷ 1 ∷ 30 ∷ 0 ∷ 0 ∷ 0 ∷ 2 ∷ 2 ∷ 2 ∷ 2 ∷ 2 ∷ 6 ∷ 1 ∷ 2 ∷ 2 ∷ 0 ∷ 0 ∷ 8
    ∷ 0 ∷ 1 ∷ 0 ∷ 0 ∷ 0 ∷ 0 ∷ []

two_encoded : encode_postings sum two_postings 2 ≡ ok two_bytes
unfolding encode_postings validate_postings to_le_bytes encode_u64 checksum
two_encoded = refl

decode_postings-encode_postings_example : decode_postings sum two_bytes ≡ ok two_postings
decode_postings-encode_postings_example =
    decode_postings-encode_postings sum two_postings 2 two_bytes sum-IsU32 (omega arith) two_sized
      (omega arith) (omega arith) two_encoded

abbrev two_skips : List SkipEntry
two_skips =
    record {
      ordinal = 0;
      first_doc_id = 300;
      previous_doc_id = 0;
      doc_ids_offset = 0;
      frequencies_offset = 0;
      positions_offset = 0;
    }
    ∷ []

seek_doc-encode_postings_example : seek_doc sum two_bytes 3 ≡ ok (find_doc 3 two_postings)
seek_doc-encode_postings_example =
    seek_doc-encode_postings sum two_postings 2 two_bytes 3 sum-IsU32 (omega arith) two_sized
      (omega arith) (omega arith) two_encoded

found : find_doc 3 two_postings ≡ some (posting 3 [])
unfolding find_doc
found = refl
