-- ===== src/Streaming/Append/Payload.antt =====
-- The payload of a block: the scan's parser accepts exactly what the writer's encoder writes.
use compact_core.Common.{
  value_or, ℕ, ◌+◌, ◌^◌, ◌<◌, ◌≡◌, refl, sym, ap, ap₂, ◌∙◌, arith, List, [], ◌++◌, true, ◌==◌,
  ==_iff, length, length-append, append-nil, drop, drop-length_append, bytes_eq, bytes_eq→eq,
  to_le_bytes, length-to_le_bytes, IsU64, All, IsByte, ok, ensure-eq-ok, >>=-eq-ok,
}
use compact_core.Cursor.{section_at, number_at}
use compact_core.Cursor.At.{At, At-start, At-end, section_at-At, number_at-At}
use compact_core.Cursor.Taken.{section_at-drop, number_at-drop}
use compact_core.Streaming.{block_magic_v1}
use compact_core.Streaming.Writer.{encode_block_payload}
use compact_core.Streaming.Append.{
  length_overflow, truncated, AppendBlockPayload, parse_append_block_payload,
}

pub length-encode_block_payload :
    (index first rows size : ℕ) (column : List ℕ)
    → length (encode_block_payload index first rows size column) ≡ 44 + length column
unfolding encode_block_payload
length-encode_block_payload index first rows size column =
    let t4 = to_le_bytes 8 (length column) ++ column in
    let t3 = to_le_bytes 8 size ++ t4 in
    let t2 = to_le_bytes 8 rows ++ t3 in
    let t1 = to_le_bytes 8 first ++ t2 in
    omega (
      arith,
      length-append (to_le_bytes 8 index) t1,
      length-append (to_le_bytes 8 first) t2,
      length-append (to_le_bytes 8 rows) t3,
      length-append (to_le_bytes 8 size) t4,
      length-append (to_le_bytes 8 (length column)) column,
      length-to_le_bytes 8 index,
      length-to_le_bytes 8 first,
      length-to_le_bytes 8 rows,
      length-to_le_bytes 8 size,
      length-to_le_bytes 8 (length column),
    )

pub parse-encode_block_payload :
    (index first rows size : ℕ) (column : List ℕ)
    → IsU64 index
    → IsU64 first
    → IsU64 rows
    → IsU64 size
    → 44 + length column < 2 ^ 64
    → parse_append_block_payload (encode_block_payload index first rows size column)
      ≡ ok (record {
        block_index = index;
        first_row_index = first;
        row_count = rows;
        raw_size = size;
      })
unfolding parse_append_block_payload encode_block_payload bytes_eq
parse-encode_block_payload index first rows size column hi hf hr hs short =
    let payload = encode_block_payload index first rows size column in
    let measured = length-encode_block_payload index first rows size column in
    let fits : length payload < 2 ^ 64 = omega (arith, measured, short) in
    let (c1, r1, a1) =
      section_at-At payload 0 4 block_magic_v1 _ length_overflow truncated refl fits
        (At-start payload) in
    let (c2, r2, a2) = number_at-At payload 8 c1 index _ length_overflow truncated fits hi a1 in
    let (c3, r3, a3) = number_at-At payload 8 c2 first _ length_overflow truncated fits hf a2 in
    let (c4, r4, a4) = number_at-At payload 8 c3 rows _ length_overflow truncated fits hr a3 in
    let (c5, r5, a5) = number_at-At payload 8 c4 size _ length_overflow truncated fits hs a4 in
    let (c6, r6, a6) =
      number_at-At payload 8 c5 (length column) column length_overflow truncated fits (omega arith)
        a5 in
    let tail : At payload c6 (column ++ []) = rw (append-nil column) a6 in
    let (c7, r7, a7) =
      section_at-At payload c6 (length column) column [] length_overflow truncated refl fits tail in
    let ended : (c7 == length payload) ≡ true =
      (==_iff c7 (length payload)).1 (At-end payload c7 a7) in
    rw (r1, r2, r3, r4, r5, r6, r7) (rw (ended) refl)

-- What the parser accepts.
abbrev pub Payload : List ℕ → AppendBlockPayload → Type 0
Payload payload parsed =
    (column : List ℕ) × (payload
      ≡ encode_block_payload parsed.block_index parsed.first_row_index parsed.row_count
          parsed.raw_size column)
    × IsU64 parsed.row_count
    × IsU64 parsed.raw_size

pub parse-Payload :
    (payload : List ℕ) (parsed : AppendBlockPayload)
    → All IsByte payload
    → parse_append_block_payload payload ≡ ok parsed
    → Payload payload parsed
unfolding parse_append_block_payload encode_block_payload
parse-Payload payload parsed octets e =
    let ((magic, c1), r1, e1) = >>=-eq-ok _ (section_at length_overflow payload 0 4 truncated) e in
    let (is_magic, f1) = ensure-eq-ok (bytes_eq magic block_magic_v1) _ e1 in
    let ((index, c2), r2, e2) = >>=-eq-ok _ (number_at length_overflow 8 payload c1 truncated) f1 in
    let ((first, c3), r3, e3) = >>=-eq-ok _ (number_at length_overflow 8 payload c2 truncated) e2 in
    let ((rows, c4), r4, e4) = >>=-eq-ok _ (number_at length_overflow 8 payload c3 truncated) e3 in
    let ((size, c5), r5, e5) = >>=-eq-ok _ (number_at length_overflow 8 payload c4 truncated) e4 in
    let ((len, c6), r6, e6) = >>=-eq-ok _ (number_at length_overflow 8 payload c5 truncated) e5 in
    let ((column, c7), r7, e7) =
      >>=-eq-ok _ (section_at length_overflow payload c6 len truncated) e6 in
    let (ended, e8) = ensure-eq-ok (c7 == length payload) _ e7 in
    let (d1, s1, l1) = section_at-drop payload 0 4 c1 magic length_overflow truncated r1 in
    let (d2, w2) = number_at-drop payload 8 c1 index c2 length_overflow truncated octets r2 in
    let (d3, w3) = number_at-drop payload 8 c2 first c3 length_overflow truncated octets r3 in
    let (d4, w4) = number_at-drop payload 8 c3 rows c4 length_overflow truncated octets r4 in
    let (d5, w5) = number_at-drop payload 8 c4 size c5 length_overflow truncated octets r5 in
    let (d6, w6) = number_at-drop payload 8 c5 len c6 length_overflow truncated octets r6 in
    let (d7, s7, l7) = section_at-drop payload c6 len c7 column length_overflow truncated r7 in
    let rest : drop c7 payload ≡ [] =
      ap (λ t. drop t payload) ((==_iff c7 (length payload)).0 ended)
      ∙ ap (drop (length payload)) (sym (append-nil payload))
      ∙ drop-length_append payload [] in
    let same : record {
      block_index = index;
      first_row_index = first;
      row_count = rows;
      raw_size = size;
    }
        ≡ parsed =
      ap (value_or parsed) e8 in
    rw (sym same) (
      column,
      d1
          ∙ ap₂ ◌++◌ (bytes_eq→eq magic block_magic_v1 is_magic) (
              d2
              ∙ ap (λ t. to_le_bytes 8 index ++ t)
                  (d3
                    ∙ ap (λ t. to_le_bytes 8 first ++ t)
                        (d4
                          ∙ ap (λ t. to_le_bytes 8 rows ++ t)
                              (d5
                                ∙ ap (λ t. to_le_bytes 8 size ++ t)
                                    (d6
                                      ∙ ap₂ (λ a b. to_le_bytes 8 a ++ b) (sym s7)
                                          (d7
                                            ∙ ap (λ t. column ++ t) rest
                                            ∙ append-nil column)))))),
      omega (arith, w4),
      omega (arith, w5),
    )
