-- ===== src/Streaming/Append/Accepted.antt =====
-- What `next_record` accepts is a record.
use compact_core.Common.{
  value_or, ℕ, ◌+◌, ◌≤◌, ◌<◌, ◌≡◌, refl, sym, ap, ap₂, ◌∙◌, arith, List, true, ◌&&◌, ltb, leb, ◌==◌,
  length, take, drop, bytes_eq, from_le_bytes, IsU32, All, IsByte, All-take, All-drop, ok,
  ensure-eq-ok, >>=-eq-ok,
}
use compact_core.Config.{Codec, rle, delta_varint_u64, column_block, huffman, lz77}
use compact_core.Cursor.Taken.{At-split}
use compact_core.Framing.{magic_v1, checksum, encode_v1, decode_v1}
use compact_core.Framing.Exact.{decode_v1_iff}
use compact_core.Framing.Parts.{length-encode_v1, encode_v1-HasParts}
use compact_core.Streaming.{BlockMetadata, max_stream_blocks}
use compact_core.Streaming.Writer.{JsonlRowGroup, encode_block_payload}
use compact_core.Streaming.Append.{
  frame_header_len, max_encoded_block_bytes, AppendBlockPayload, parse_append_block_payload,
  is_column_block, next_record,
}
use compact_core.Streaming.Append.Record.{IsRecord, frame_of}
use compact_core.Streaming.Append.Payload.{length-encode_block_payload, parse-Payload}

le_of_leb : (a b : ℕ) → leb a b ≡ true → a ≤ b
le_of_leb a b h = ground arith

both_below : (a b c d : ℕ) → (leb a b && ltb c d) ≡ true → (a ≤ b) × (c < d)
both_below a b c d h = ground arith

both_equal : (a b c d : ℕ) → (a == b && c == d) ≡ true → (a ≡ b) × (c ≡ d)
both_equal a b c d h = ground arith

is_column_block→eq : (codec : Codec) → is_column_block codec ≡ true → codec ≡ column_block
is_column_block→eq column_block e = refl
is_column_block→eq rle e = cc
is_column_block→eq delta_varint_u64 e = cc
is_column_block→eq huffman e = cc
is_column_block→eq lz77 e = cc

module _ (hash : List ℕ → ℕ) where
  abbrev describe : (index : ℕ) → AppendBlockPayload → (cursor size : ℕ) → List ℕ → BlockMetadata
  describe index parsed cursor size payload = record {
    block_index = index;
    encoded_offset = cursor;
    row_count = parsed.row_count;
    uncompressed_size = parsed.raw_size;
    compressed_size = size;
    checksum = checksum hash payload;
  }

  -- What the tests of `next_record` have established when it succeeds.
  next_record-checks :
      (bytes : List ℕ) (cursor index rows : ℕ) (block : BlockMetadata)
      → next_record hash bytes cursor index rows ≡ ok block
      → (len : ℕ) × (payload : List ℕ) × (parsed : AppendBlockPayload) × (len
          ≤ max_encoded_block_bytes)
        × (index < max_stream_blocks)
        × (cursor + (frame_header_len + len) ≤ length bytes)
        × (decode_v1 hash (take (frame_header_len + len) (drop cursor bytes))
            ≡ ok (record { codec = column_block; payload = payload }))
        × (parse_append_block_payload payload ≡ ok parsed)
        × (parsed.block_index ≡ index)
        × (parsed.first_row_index ≡ rows)
        × (block ≡ describe parsed.block_index parsed cursor (frame_header_len + len) payload)
  unfolding next_record
  next_record-checks bytes cursor index rows block e =
      let header = take frame_header_len (drop cursor bytes) in
      let len = from_le_bytes (take 8 (drop 6 header)) in
      let (t1, e1) = ensure-eq-ok (leb (cursor + frame_header_len) (length bytes)) _ e in
      let (t2, e2) = ensure-eq-ok (bytes_eq (take 4 header) magic_v1) _ e1 in
      let (t3, e3) =
        ensure-eq-ok (leb len max_encoded_block_bytes && ltb index max_stream_blocks) _ e2 in
      let (t4, e4) = ensure-eq-ok (leb (cursor + (frame_header_len + len)) (length bytes)) _ e3 in
      let (decoded, d, e5) =
        >>=-eq-ok _ (decode_v1 hash (take (frame_header_len + len) (drop cursor bytes))) e4 in
      let (t6, e6) = ensure-eq-ok (is_column_block decoded.codec) _ e5 in
      let (parsed, p, e7) = >>=-eq-ok _ (parse_append_block_payload decoded.payload) e6 in
      let (t8, e8) =
        ensure-eq-ok (parsed.block_index == index && parsed.first_row_index == rows) _ e7 in
      let (small, few) = both_below len max_encoded_block_bytes index max_stream_blocks t3 in
      let (same_index, same_rows) =
        both_equal parsed.block_index index parsed.first_row_index rows t8 in
      let codec = is_column_block→eq decoded.codec t6 in
      (
        len,
        decoded.payload,
        parsed,
        small,
        few,
        le_of_leb (cursor + (frame_header_len + len)) (length bytes) t4,
        d ∙ ap (λ c. ok (record { codec = c; payload = decoded.payload })) codec,
        p,
        same_index,
        same_rows,
        sym (ap (value_or block) e8),
      )

  pub next_record-IsRecord :
      (bytes : List ℕ) (cursor index rows : ℕ) (block : BlockMetadata)
      → ((payload : List ℕ) → IsU32 (hash payload))
      → All IsByte bytes
      → next_record hash bytes cursor index rows ≡ ok block
      → IsRecord hash bytes cursor index rows block
  unfolding checksum
  next_record-IsRecord bytes cursor index rows block word octets e =
      let (len, payload, parsed, small, few, fits, opened, read, same_index, same_rows, described) =
        next_record-checks bytes cursor index rows block e in
      let slice = take (frame_header_len + len) (drop cursor bytes) in
      let (at, size) = At-split bytes cursor (frame_header_len + len) fits in
      let slice_octets : All IsByte slice =
        All-take IsByte (frame_header_len + len) (drop cursor bytes)
          (All-drop IsByte cursor bytes octets) in
      let written : slice ≡ encode_v1 hash column_block payload =
        ((decode_v1_iff hash slice (record { codec = column_block; payload = payload }) slice_octets
            (word payload)).0
          opened).0 in
      let sized : length payload ≡ len =
        omega (arith, size, ap length written, length-encode_v1 hash column_block payload) in
      let parts =
        encode_v1-HasParts hash (record { codec = column_block; payload = payload })
          (omega (arith, small, sized)) (word payload) in
      let payload_octets : All IsByte payload =
        rw (sym (ap (drop 18) written ∙ parts.payload)) (All-drop IsByte 18 slice slice_octets) in
      let (column, laid, count_word, raw_word) = parse-Payload payload parsed payload_octets read in
      let group : JsonlRowGroup = record {
        row_count = parsed.row_count;
        raw_bytes = parsed.raw_size;
        payload = column;
      } in
      let named : payload
          ≡ encode_block_payload index rows parsed.row_count parsed.raw_size column =
        laid
        ∙ ap₂ (λ i r. encode_block_payload i r parsed.row_count parsed.raw_size column) same_index
            same_rows in
      let measured =
        length-encode_block_payload index rows parsed.row_count parsed.raw_size column in
      let framed : slice ≡ frame_of hash index rows group =
        written ∙ ap (encode_v1 hash column_block) named in
      (
        group,
        drop (frame_header_len + len) (drop cursor bytes),
        (count_word, raw_word, omega (arith, small, sized, ap length named, measured)),
        few,
        rw (sym framed) at,
        described
            ∙ ap (λ i. describe i parsed cursor (frame_header_len + len) payload) same_index
            ∙ ap (λ l. describe index parsed cursor (frame_header_len + l) payload) (sym sized)
            ∙ ap (λ p. describe index parsed cursor (frame_header_len + length p) p) named,
      )
