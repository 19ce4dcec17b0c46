-- ===== src/Streaming/Append/Record.antt =====
-- A record of the stream: `next_record` accepts exactly the blocks that the writer writes.
use compact_core.Common.{
  ℕ, ◌+◌, ◌^◌, ◌≤◌, ◌<◌, ◌≡◌, refl, sym, ap, ◌∙◌, arith, List, ◌++◌, true, ltb, leb, length,
  length-append, take, drop, take-append_exact, bytes_eq, from_le_bytes, from_le_bytes-to_le_bytes,
  to_le_bytes, IsU32, IsU64, ok,
}
use compact_core.Config.{column_block}
use compact_core.Cursor.At.{At, At-drop, At-reach}
use compact_core.Framing.{magic_v1, checksum, encode_v1}
use compact_core.Framing.Exact.{decode_v1-encode_v1}
use compact_core.Framing.Parts.{length-encode_v1}
use compact_core.Framing.Sealed.{==_self}
use compact_core.Streaming.{BlockMetadata, max_stream_blocks}
use compact_core.Streaming.Writer.{JsonlRowGroup, encode_block_payload}
use compact_core.Streaming.Append.{frame_header_len, max_encoded_block_bytes, next_record}
use compact_core.Streaming.Append.Payload.{length-encode_block_payload, parse-encode_block_payload}

leb_of_le : (a b : ℕ) → a ≤ b → leb a b ≡ true
leb_of_le a b h = ground arith

module _ (hash : List ℕ → ℕ) where
  frame_magic :
      (payload back : List ℕ)
      → take 4 (take frame_header_len (encode_v1 hash column_block payload ++ back)) ≡ magic_v1
  unfolding encode_v1 to_le_bytes
  frame_magic payload back = refl

  frame_len :
      (payload back : List ℕ)
      → length payload < 2 ^ 64
      → from_le_bytes
          (take 8 (drop 6 (take frame_header_len (encode_v1 hash column_block payload ++ back))))
        ≡ length payload
  unfolding encode_v1 to_le_bytes from_le_bytes
  frame_len payload back fits = from_le_bytes-to_le_bytes 8 (length payload) fits

  -- The frame of a row group, and what the scan says of it.
  abbrev pub frame_of : (index rows : ℕ) → JsonlRowGroup → List ℕ
  frame_of index rows group =
      encode_v1 hash column_block
        (encode_block_payload index rows group.row_count group.raw_bytes group.payload)

  abbrev pub block_at : (cursor index rows : ℕ) → JsonlRowGroup → BlockMetadata
  block_at cursor index rows group = record {
    block_index = index;
    encoded_offset = cursor;
    row_count = group.row_count;
    uncompressed_size = group.raw_bytes;
    compressed_size =
        frame_header_len
        + length (encode_block_payload index rows group.row_count group.raw_bytes group.payload);
    checksum =
        checksum hash
          (encode_block_payload index rows group.row_count group.raw_bytes group.payload);
  }

  -- A row group that the writer may have written.
  abbrev pub Writable : JsonlRowGroup → Type 0
  Writable group =
      IsU64 group.row_count
      × IsU64 group.raw_bytes
      × (44 + length group.payload ≤ max_encoded_block_bytes)

  next_record-frame_of :
      (bytes back : List ℕ) (cursor index rows : ℕ) (group : JsonlRowGroup)
      → ((payload : List ℕ) → IsU32 (hash payload))
      → Writable group
      → index < max_stream_blocks
      → IsU64 rows
      → At bytes cursor (frame_of index rows group ++ back)
      → next_record hash bytes cursor index rows ≡ ok (block_at cursor index rows group)
  unfolding next_record bytes_eq
  next_record-frame_of bytes back cursor index rows group word (hn, hs, small) few hr at =
      let payload = encode_block_payload index rows group.row_count group.raw_bytes group.payload in
      let frame = frame_of index rows group in
      let measured =
        length-encode_block_payload index rows group.row_count group.raw_bytes group.payload in
      let sized = length-encode_v1 hash column_block payload in
      let behind = At-drop bytes cursor (frame ++ back) at in
      let reach = At-reach bytes cursor (frame ++ back) at in
      let split = length-append frame back in
      let header_fits : leb (cursor + frame_header_len) (length bytes) ≡ true =
        leb_of_le _ _ (omega (arith, reach, split, sized)) in
      let record_fits : leb (cursor + (frame_header_len + length payload)) (length bytes) ≡ true =
        leb_of_le _ _ (omega (arith, reach, split, sized)) in
      let short : leb (length payload) max_encoded_block_bytes ≡ true =
        leb_of_le _ _ (omega (arith, measured)) in
      let few_test : ltb index max_stream_blocks ≡ true = ground arith in
      let whole : take (frame_header_len + length payload) (frame ++ back) ≡ frame =
        take-append_exact (frame_header_len + length payload) frame back sized in
      let opened =
        decode_v1-encode_v1 hash column_block payload (omega (arith, measured)) (word payload) in
      let parsed =
        parse-encode_block_payload index rows group.row_count group.raw_bytes group.payload
          (omega arith) hr hn hs (omega arith) in
      rw
        (
          header_fits,
          behind,
          frame_magic payload back,
          frame_len payload back (omega (arith, measured)),
          short,
          few_test,
          record_fits,
          whole,
          opened,
          parsed,
          ==_self index,
          ==_self rows,
        )
        refl

  -- At the cursor stands the frame of a row group, with the index and the rows before it, and `block`
  -- describes it.
  abbrev pub IsRecord : List ℕ → (cursor index rows : ℕ) → BlockMetadata → Type 0
  IsRecord bytes cursor index rows block =
      (group : JsonlRowGroup) × (back : List ℕ) × Writable group
      × (index < max_stream_blocks)
      × At bytes cursor (frame_of index rows group ++ back)
      × (block ≡ block_at cursor index rows group)

  pub IsRecord-next_record :
      (bytes : List ℕ) (cursor index rows : ℕ) (block : BlockMetadata)
      → ((payload : List ℕ) → IsU32 (hash payload))
      → IsU64 rows
      → IsRecord bytes cursor index rows block
      → next_record hash bytes cursor index rows ≡ ok block
  IsRecord-next_record bytes cursor index rows block word hr
        (group, back, writable, few, at, described) =
      next_record-frame_of bytes back cursor index rows group word writable few hr at
      ∙ ap ok (sym described)
