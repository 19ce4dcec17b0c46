-- ===== src/Streaming/Snapshot.antt =====
-- crates/compact-core/src/streaming/snapshot.rs: the state of a checkpoint in a frame, behind a header.
pub mod RoundTrip
mod Tests
use compact_core.Common.{
  ℕ, ◌+◌, List, [], ◌∷◌, ◌++◌, not, ltb, ◌==◌, length, get_or, take, bytes_eq, to_le_bytes, Result,
  ok, ◌>>=◌, ◌>>◌, ensure, CompactError, invalid_input, unsupported,
}
use compact_core.Api.{encode_bytes_frame, decode_bytes_frame}
use compact_core.Config.{EncodeConfig, raw_bytes, none, rle}
use compact_core.Cursor.{section_at, number_at}
use compact_core.Framing.{checksum}

abbrev pub snapshot_magic : List ℕ
snapshot_magic = b'S' ∷ b'N' ∷ b'P' ∷ b'1' ∷ []

abbrev pub snapshot_version : ℕ
snapshot_version = 1

abbrev pub fixed_header_len : ℕ
fixed_header_len = 4 + 1 + 8 + 8 + 8 + 4

pub record Snapshot : Type 0 where
  pub checkpoint_id : ℕ
  pub state : List ℕ

abbrev pub snapshot_config : EncodeConfig
snapshot_config = record { value_type = raw_bytes; transform = none; codec = rle }

abbrev pub length_overflow : CompactError
length_overflow = invalid_input "snapshot length overflow"

unfoldable pub snapshot_bytes : (checkpoint_id raw_len sum : ℕ) → List ℕ → List ℕ
snapshot_bytes checkpoint_id raw_len sum frame =
    snapshot_magic
    ++ ((snapshot_version ∷ [])
        ++ (to_le_bytes 8 checkpoint_id
            ++ (to_le_bytes 8 raw_len
                ++ (to_le_bytes 8 (length frame) ++ (to_le_bytes 4 sum ++ frame)))))

module _ (hash : List ℕ → ℕ) where
  unfoldable pub encode_snapshot : ℕ → List ℕ → Result (List ℕ)
  unfolding snapshot_bytes checksum
  encode_snapshot checkpoint_id state = do
    frame ← encode_bytes_frame hash snapshot_config state
    ok (snapshot_bytes checkpoint_id (length state) (checksum hash frame) frame)

  unfoldable pub decode_snapshot : List ℕ → Result Snapshot
  unfolding number_at section_at checksum
  decode_snapshot bytes = do
    ensure (not (ltb (length bytes) fixed_header_len))
        (invalid_input "snapshot header is truncated")
    ensure (bytes_eq (take 4 bytes) snapshot_magic) (invalid_input "snapshot has invalid magic")
    ensure (get_or bytes 4 0 == snapshot_version) (unsupported "snapshot version")
    (checkpoint_id, c1) ←
        number_at length_overflow 8 bytes 5 (invalid_input "snapshot checkpoint id is truncated")
    (raw_len, c2) ←
        number_at length_overflow 8 bytes c1 (invalid_input "snapshot raw length is truncated")
    (frame_len, c3) ←
        number_at length_overflow 8 bytes c2 (invalid_input "snapshot frame length is truncated")
    (expected, c4) ←
        number_at length_overflow 4 bytes c3 (invalid_input "snapshot checksum is truncated")
    (frame, end) ←
        section_at (invalid_input "snapshot frame length overflow") bytes c4 frame_len
          (invalid_input "snapshot frame is truncated")
    ensure (end == length bytes) (invalid_input "snapshot has trailing bytes")
    ensure (checksum hash frame == expected) (invalid_input "snapshot checksum mismatch")
    state ← decode_bytes_frame hash snapshot_config frame
    ensure (length state == raw_len)
        (invalid_input "snapshot raw length does not match decoded state")
    ok (record { checkpoint_id = checkpoint_id; state = state })
