-- ===== src/Streaming/Snapshot/Tests.antt =====
-- A snapshot, and the source's test of a corrupted one.
use compact_core.Common.{ℕ, ◌≡◌, refl, arith, List, [], ◌∷◌, ok, err, invalid_input}
use compact_core.Config.{rle}
use compact_core.Framing.{encode_v1}
use compact_core.Primitives.Rle.{encode_rle}
use compact_core.Streaming.Snapshot.{snapshot_bytes, encode_snapshot, decode_snapshot}
use compact_core.Streaming.Snapshot.RoundTrip.{decode_snapshot-encode_snapshot}

-- A hash with 32 bits.
abbrev seven : List ℕ → ℕ
seven bytes = 7

abbrev state : List ℕ
state = 97 ∷ 97 ∷ 98 ∷ []

abbrev encoded : List ℕ
encoded = snapshot_bytes 7 3 7 (encode_v1 seven rle (encode_rle state))

state_encoded : encode_snapshot seven 7 state ≡ ok encoded
unfolding encode_snapshot compact_core.Api.encode_bytes_frame compact_core.Config.validate
    compact_core.Codecs.encode_bytes
state_encoded = refl

truncated :
    decode_snapshot seven (83 ∷ 78 ∷ 80 ∷ 49 ∷ [])
    ≡ err (invalid_input "snapshot header is truncated")
unfolding decode_snapshot
truncated = refl

decode_snapshot-encode_snapshot_example :
    (bytes : List ℕ) × (encode_snapshot seven 7 state ≡ ok bytes)
    × (decode_snapshot seven bytes ≡ ok (record { checkpoint_id = 7; state = state }))
decode_snapshot-encode_snapshot_example =
    decode_snapshot-encode_snapshot seven (λ payload. omega arith) 7 state (omega arith)
      (omega arith)
