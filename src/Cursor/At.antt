-- ===== src/Cursor/At.antt =====
-- What stands at a cursor, and how the readers move it.
use compact_core.Common.{
  ℕ, ◌+◌, ◌-◌, ◌^◌, ◌≤◌, ◌<◌, ◌≡◌, refl, sym, ap, ◌∙◌, arith, List, [], ◌∷◌, ◌++◌, length,
  length-append, append_assoc, append-nil, IsU64, ok, dec_lt, take, drop, take-length_append,
  drop-length_append, CompactError, to_le_bytes, length-to_le_bytes, from_le_bytes-to_le_bytes,
}
use compact_core.Cursor.{moved, read, section_at, number_at}
use compact_core.Primitives.Varint.{encode_value, encode_u64}
use compact_core.Primitives.Varint.Digits.{encode_value-small, encode_value-large}
use compact_core.Primitives.Varint.Read.{read_u64-encode_u64}

-- The bytes from the cursor on are `suffix`.
abbrev pub At : List ℕ → ℕ → List ℕ → Type 0
At bytes cursor suffix = (front : List ℕ) × (bytes ≡ front ++ suffix) × (cursor ≡ length front)

pub At-start : (bytes : List ℕ) → At bytes 0 bytes
At-start bytes = ([], refl, refl)

pub At-end : (bytes : List ℕ) (cursor : ℕ) → At bytes cursor [] → cursor ≡ length bytes
At-end bytes cursor (front, e, c) = c ∙ ap length (sym (e ∙ append-nil front))

pub At-room :
    (bytes : List ℕ) (cursor : ℕ) (suffix : List ℕ)
    → At bytes cursor suffix
    → length bytes - cursor ≡ length suffix
At-room bytes cursor suffix (front, e, c) = omega (arith, ap length e, length-append front suffix)

pub read-At :
    (bytes : List ℕ) (cursor v : ℕ) (vs back : List ℕ)
    → IsU64 v
    → At bytes cursor (encode_u64 (v ∷ vs) ++ back)
    → (next : ℕ) × (read bytes cursor ≡ ok (v, next)) × At bytes next (encode_u64 vs ++ back)
unfolding read encode_u64
read-At bytes cursor v vs back h (front, e, c) =
    let back' = encode_u64 vs ++ back in
    let split : bytes ≡ front ++ (encode_value v ++ back') =
      e ∙ ap (λ t. front ++ t) (append_assoc (encode_value v) (encode_u64 vs) back) in
    let one : encode_u64 (v ∷ []) ≡ encode_value v = append-nil (encode_value v) in
    (
      length front + length (encode_value v),
      rw (split, c) (ap moved (rw (one) at (read_u64-encode_u64 front v back' h))),
      (
        front ++ encode_value v,
        split ∙ sym (append_assoc front (encode_value v) back'),
        sym (length-append front (encode_value v)),
      ),
    )

pub read_one-At :
    (bytes : List ℕ) (cursor v : ℕ) (back : List ℕ)
    → IsU64 v
    → At bytes cursor (encode_u64 (v ∷ []) ++ back)
    → (next : ℕ) × (read bytes cursor ≡ ok (v, next)) × At bytes next back
unfolding encode_u64
read_one-At bytes cursor v back h at = read-At bytes cursor v [] back h at

encode_value-positive : (v : ℕ) → 0 < length (encode_value v)
encode_value-positive v = elim (dec_lt v 128) [
  | yes small ↦ rw (encode_value-small v small) (omega arith)
  | no large ↦ rw (encode_value-large v (omega arith)) (omega arith)
]

pub length-encode_u64_least : (vs : List ℕ) → length vs ≤ length (encode_u64 vs)
unfolding encode_u64
length-encode_u64_least [] = omega arith
length-encode_u64_least (v ∷ vs) = omega (
  arith,
  length-append (encode_value v) (encode_u64 vs),
  encode_value-positive v,
  length-encode_u64_least vs,
)

pub section_at-At :
    (bytes : List ℕ) (cursor len : ℕ) (section back : List ℕ) (overflow message : CompactError)
    → len ≡ length section
    → length bytes < 2 ^ 64
    → At bytes cursor (section ++ back)
    → (next : ℕ) × (section_at overflow bytes cursor len message ≡ ok (section, next))
      × At bytes next back
unfolding section_at
section_at-At bytes cursor len section back overflow message size fits (front, e, c) =
    let whole : length bytes ≡ length front + (length section + length back) =
      omega
        (arith, ap length e, length-append front (section ++ back), length-append section back) in
    let slice : take len (drop cursor bytes) ≡ section =
      rw (e, c, size, drop-length_append front (section ++ back))
        (take-length_append section back) in
    (
      cursor + len,
      rw (slice) (ground arith),
      (
        front ++ section,
        e ∙ sym (append_assoc front section back),
        omega (arith, length-append front section),
      ),
    )

pub At-drop :
    (bytes : List ℕ) (cursor : ℕ) (back : List ℕ) → At bytes cursor back → drop cursor bytes ≡ back
At-drop bytes cursor back (front, e, c) = rw (e, c) (drop-length_append front back)

pub At-length :
    (bytes : List ℕ) (cursor : ℕ) (back : List ℕ)
    → At bytes cursor back
    → length back ≤ length bytes
At-length bytes cursor back (front, e, c) = omega (arith, ap length e, length-append front back)

pub At-reach :
    (bytes : List ℕ) (cursor : ℕ) (back : List ℕ)
    → At bytes cursor back
    → cursor + length back ≡ length bytes
At-reach bytes cursor back (front, e, c) = omega (arith, c, ap length e, length-append front back)

pub number_at-At :
    (bytes : List ℕ) (width cursor v : ℕ) (back : List ℕ) (overflow message : CompactError)
    → length bytes < 2 ^ 64
    → v < 256 ^ width
    → At bytes cursor (to_le_bytes width v ++ back)
    → (next : ℕ) × (number_at overflow width bytes cursor message ≡ ok (v, next))
      × At bytes next back
unfolding number_at
number_at-At bytes width cursor v back overflow message fits small at =
    let (next, reads, at') =
      section_at-At bytes cursor width (to_le_bytes width v) back overflow message
        (sym (length-to_le_bytes width v)) fits at in
    (next, rw (reads, from_le_bytes-to_le_bytes width v small) refl, at')
