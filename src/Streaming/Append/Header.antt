-- ===== src/Streaming/Append/Header.antt =====
-- The header of a stream: `has_stream_header` accepts exactly what the writer writes.
use compact_core.Common.{
  ℕ, ◌≤◌, ◌≡◌, refl, sym, ap, ap₂, ◌∙◌, arith, List, [], ◌∷◌, ◌++◌, true, length, get_or, take,
  drop, take-append-drop, drop-cons, drop-drop, length-take, length-drop, bytes_eq, bytes_eq→eq,
  to_le_bytes, from_le_bytes, to_le_bytes-from_le_bytes, All, IsByte, All-take, All-drop, ◌↔◌,
}
use compact_core.Streaming.Writer.{stream_header}
use compact_core.Streaming.Append.{stream_header_len, has_stream_header}

abbrev stream_magic : List ℕ
stream_magic = b'C' ∷ b'M' ∷ b'P' ∷ b'2' ∷ []

header_tests :
    (bytes : List ℕ)
    → has_stream_header bytes ≡ true
    → (bytes_eq (take 4 bytes) stream_magic ≡ true)
      × (get_or bytes 4 0 ≡ 2)
      × (get_or bytes 5 0 ≡ 0)
      × (from_le_bytes (take 4 (drop 6 bytes)) ≡ 0)
header_tests bytes h = ground arith

has_stream_header-stream_header :
    (bytes : List ℕ)
    → All IsByte bytes
    → stream_header_len ≤ length bytes
    → has_stream_header bytes ≡ true
    → bytes ≡ stream_header ++ drop stream_header_len bytes
unfolding to_le_bytes stream_header
has_stream_header-stream_header bytes octets long h =
    let (magic, version, flags, extension) = header_tests bytes h in
    let slice = take 4 (drop 6 bytes) in
    let size : length slice ≡ 4 =
      omega (arith, length-take 4 (drop 6 bytes), length-drop 6 bytes) in
    let zeros : slice ≡ to_le_bytes 4 0 =
      sym (
        to_le_bytes-from_le_bytes slice
          (All-take IsByte 4 (drop 6 bytes) (All-drop IsByte 6 bytes octets)))
      ∙ ap₂ to_le_bytes size extension in
    let behind : drop 6 bytes ≡ to_le_bytes 4 0 ++ drop 10 bytes =
      sym (take-append-drop 4 (drop 6 bytes)) ∙ ap₂ ◌++◌ zeros (drop-drop 4 6 10 bytes refl) in
    sym (take-append-drop 4 bytes)
    ∙ ap₂ ◌++◌ (bytes_eq→eq (take 4 bytes) stream_magic magic) (
        drop-cons 4 bytes 0 (omega (arith, long))
        ∙ ap₂ ◌∷◌ version (drop-cons 5 bytes 0 (omega (arith, long)) ∙ ap₂ ◌∷◌ flags behind))

stream_header-has_stream_header : (rest : List ℕ) → has_stream_header (stream_header ++ rest) ≡ true
unfolding bytes_eq from_le_bytes stream_header to_le_bytes
stream_header-has_stream_header rest = refl

-- The stream begins with the header.
abbrev pub HasHeader : List ℕ → Type 0
HasHeader bytes = (rest : List ℕ) × (bytes ≡ stream_header ++ rest)

pub has_stream_header_iff :
    (bytes : List ℕ)
    → All IsByte bytes
    → stream_header_len ≤ length bytes
    → (has_stream_header bytes ≡ true) ↔ HasHeader bytes
has_stream_header_iff bytes octets long = (
  λ h. (drop stream_header_len bytes, has_stream_header-stream_header bytes octets long h),
  λ h. rw (h.1) (stream_header-has_stream_header h.0),
)

pub HasHeader-length : (bytes : List ℕ) → HasHeader bytes → stream_header_len ≤ length bytes
unfolding stream_header to_le_bytes
HasHeader-length bytes (rest, e) = omega (arith, ap length e)
