-- ===== src/Streaming/Append/Tests.antt =====
-- A stream of one block behind its header, with a torn tail.
use compact_core.Common.{
  ℕ, ◌≡◌, ◌↔◌, refl, arith, List, [], ◌∷◌, ◌++◌, true, false, to_le_bytes, ok,
}
use compact_core.Config.{column_block}
use compact_core.Framing.{encode_v1}
use compact_core.Streaming.Writer.{stream_header, encode_block_payload}
use compact_core.Streaming.Append.{AppendRecovery, empty_recovery, recover_append_stream}
use compact_core.Streaming.Append.Stream.{Recovery, recover_append_stream_iff}

-- A hash with 32 bits.
abbrev seven : List ℕ → ℕ
seven bytes = 7

abbrev frame : List ℕ
frame = encode_v1 seven column_block (encode_block_payload 0 0 3 9 (5 ∷ []))

abbrev torn_tail : List ℕ
torn_tail = 67 ∷ 77 ∷ []

abbrev stream : List ℕ
stream = stream_header ++ (frame ++ torn_tail)

abbrev recovery : AppendRecovery
recovery = record {
  valid_len = 73;
  blocks =
      record {
        block_index = 0;
        encoded_offset = 10;
        row_count = 3;
        uncompressed_size = 9;
        compressed_size = 63;
        checksum = 7;
      }
      ∷ [];
  total_rows = 3;
  total_uncompressed_size = 9;
  total_compressed_size = 63;
  truncated_or_corrupt_tail = true;
}

recovered : recover_append_stream seven stream ≡ ok recovery
unfolding recover_append_stream stream_header to_le_bytes encode_v1 encode_block_payload
    compact_core.Common.bytes_eq compact_core.Common.from_le_bytes compact_core.Framing.decode_v1
    compact_core.Framing.id_to_codec
recovered = refl

nothing_recovered : recover_append_stream seven [] ≡ ok (empty_recovery false)
unfolding recover_append_stream
nothing_recovered = refl

short_recovered : recover_append_stream seven torn_tail ≡ ok (empty_recovery true)
unfolding recover_append_stream
short_recovered = refl

recover_append_stream_iff_example :
    (recover_append_stream seven stream ≡ ok recovery) ↔ Recovery seven stream recovery
unfolding stream_header encode_block_payload encode_v1 to_le_bytes
recover_append_stream_iff_example =
    recover_append_stream_iff seven (λ payload. omega arith) stream (omega arith) (omega arith)
      recovery
