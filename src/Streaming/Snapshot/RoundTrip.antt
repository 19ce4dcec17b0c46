-- ===== src/Streaming/Snapshot/RoundTrip.antt =====
-- `decode_snapshot` on what `encode_snapshot` writes.
use compact_core.Common.{
  ℕ, ◌+◌, ◌^◌, ◌≤◌, ◌<◌, ◌≡◌, refl, arith, List, [], ◌∷◌, ◌++◌, true, false, ltb, ◌==◌, ==_iff,
  length, length-append, append-nil, bytes_eq, to_le_bytes, length-to_le_bytes, IsU32, IsU64, ok,
  invalid_input,
}
use compact_core.Api.{encode_bytes_frame, decode_bytes_frame}
use compact_core.Api.RoundTrip.{encode_bytes_frame_iff, decode_bytes_frame-encode_bytes_frame}
use compact_core.Config.{rle}
use compact_core.Cursor.At.{At, At-end, number_at-At, section_at-At}
use compact_core.Framing.{checksum, encode_v1}
use compact_core.Framing.Parts.{length-encode_v1}
use compact_core.Framing.Sealed.{==_self}
use compact_core.Primitives.Rle.{max_decoded_bytes, encode_rle}
use compact_core.Primitives.Rle.RoundTrip.{encode_rle-Runs}
use compact_core.Primitives.Rle.Runs.{Runs-length}
use compact_core.Streaming.Snapshot.{
  snapshot_magic, snapshot_version, fixed_header_len, snapshot_config, length_overflow,
  snapshot_bytes, encode_snapshot, decode_snapshot,
}

length-snapshot_bytes :
    (checkpoint_id raw_len sum : ℕ) (frame : List ℕ)
    → length (snapshot_bytes checkpoint_id raw_len sum frame) ≡ fixed_header_len + length frame
unfolding snapshot_bytes
length-snapshot_bytes checkpoint_id raw_len sum frame =
    let t3 = to_le_bytes 4 sum ++ frame in
    let t2 = to_le_bytes 8 (length frame) ++ t3 in
    let t1 = to_le_bytes 8 raw_len ++ t2 in
    omega (
      arith,
      length-append (to_le_bytes 8 checkpoint_id) t1,
      length-append (to_le_bytes 8 raw_len) t2,
      length-append (to_le_bytes 8 (length frame)) t3,
      length-append (to_le_bytes 4 sum) frame,
      length-to_le_bytes 8 checkpoint_id,
      length-to_le_bytes 8 raw_len,
      length-to_le_bytes 8 (length frame),
      length-to_le_bytes 4 sum,
    )

module _ (hash : List ℕ → ℕ) (word : (payload : List ℕ) → IsU32 (hash payload)) where
  decode-snapshot_bytes :
      (checkpoint_id : ℕ) (state frame : List ℕ)
      → IsU64 checkpoint_id
      → length (snapshot_bytes checkpoint_id (length state) (hash frame) frame) < 2 ^ 64
      → length state < 2 ^ 64
      → decode_bytes_frame hash snapshot_config frame ≡ ok state
      → decode_snapshot hash (snapshot_bytes checkpoint_id (length state) (hash frame) frame)
        ≡ ok (record { checkpoint_id = checkpoint_id; state = state })
  unfolding decode_snapshot snapshot_bytes checksum bytes_eq
  decode-snapshot_bytes checkpoint_id state frame id_word fits state_fits decoded =
      let bytes = snapshot_bytes checkpoint_id (length state) (hash frame) frame in
      let rest =
        to_le_bytes 8 (length state)
        ++ (to_le_bytes 8 (length frame) ++ (to_le_bytes 4 (hash frame) ++ frame)) in
      let size = length-snapshot_bytes checkpoint_id (length state) (hash frame) frame in
      let start : At bytes 5 (to_le_bytes 8 checkpoint_id ++ rest) =
        (snapshot_magic ++ snapshot_version ∷ [], refl, refl) in
      let (c1, r1, a1) =
        number_at-At bytes 8 5 checkpoint_id rest length_overflow
          (invalid_input "snapshot checkpoint id is truncated") fits id_word start in
      let (c2, r2, a2) =
        number_at-At bytes 8 c1 (length state) _ length_overflow
          (invalid_input "snapshot raw length is truncated") fits state_fits a1 in
      let (c3, r3, a3) =
        number_at-At bytes 8 c2 (length frame) _ length_overflow
          (invalid_input "snapshot frame length is truncated") fits (omega (arith, size)) a2 in
      let (c4, r4, a4) =
        number_at-At bytes 4 c3 (hash frame) frame length_overflow
          (invalid_input "snapshot checksum is truncated") fits (word frame) a3 in
      let tail : At bytes c4 (frame ++ []) = rw (append-nil frame) a4 in
      let (end, r5, a5) =
        section_at-At bytes c4 (length frame) frame []
          (invalid_input "snapshot frame length overflow")
          (invalid_input "snapshot frame is truncated") refl fits tail in
      let ended : (end == length bytes) ≡ true =
        (==_iff end (length bytes)).1 (At-end bytes end a5) in
      let long : ltb (length bytes) fixed_header_len ≡ false = ground (arith, size) in
      rw (long) (
        rw (r1, r2, r3, r4, r5)
          (rw (ended, ==_self (hash frame), decoded, ==_self (length state)) refl))

  -- A state of at most 256 MiB, with a u64 as the id of its checkpoint, is encoded, and the snapshot
  -- decodes to that id and that state. (The hash has 32 bits.)
  pub decode_snapshot-encode_snapshot :
      (checkpoint_id : ℕ) (state : List ℕ)
      → IsU64 checkpoint_id
      → length state ≤ max_decoded_bytes
      → (bytes : List ℕ) × (encode_snapshot hash checkpoint_id state ≡ ok bytes)
        × (decode_snapshot hash bytes
            ≡ ok (record { checkpoint_id = checkpoint_id; state = state }))
  unfolding encode_snapshot checksum
  decode_snapshot-encode_snapshot checkpoint_id state id_word bound =
      let payload = encode_rle state in
      let frame = encode_v1 hash rle payload in
      let framed : encode_bytes_frame hash snapshot_config state ≡ ok frame =
        (encode_bytes_frame_iff hash snapshot_config state frame).1 (refl, refl) in
      let short : length (snapshot_bytes checkpoint_id (length state) (hash frame) frame) < 2 ^ 64 =
        omega (
          arith,
          bound,
          length-snapshot_bytes checkpoint_id (length state) (hash frame) frame,
          length-encode_v1 hash rle payload,
          Runs-length (encode_rle-Runs state),
        ) in
      (
        snapshot_bytes checkpoint_id (length state) (hash frame) frame,
        rw (framed) refl,
        decode-snapshot_bytes checkpoint_id state frame id_word short (omega (arith, bound)) (
            decode_bytes_frame-encode_bytes_frame hash snapshot_config state frame word bound
              framed),
      )
