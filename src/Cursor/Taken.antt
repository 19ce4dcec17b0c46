-- ===== src/Cursor/Taken.antt =====
-- What the readers have found when they succeed.
use compact_core.Common.{
  ℕ, ◌+◌, ◌^◌, ◌≤◌, ◌<◌, ◌≡◌, sym, ap, ap₂, ◌∙◌, arith, List, ◌++◌, length, take, drop,
  take-append-drop, length-take, length-drop, drop-drop, leb, to_le_bytes, from_le_bytes,
  to_le_bytes-from_le_bytes, from_le_bytes-lt, All, IsByte, All-take, All-drop, ok, ensure-eq-ok,
  >>=-eq-ok, CompactError,
}
use compact_core.Cursor.{section_at, number_at}
use compact_core.Cursor.At.{At}
use compact_core.Primitives.Delta.{checked_add, ok_or}
use compact_core.Primitives.Delta.Unsigned.{checked_add-sum}

pub section_at-slice :
    (bytes : List ℕ) (cursor len next : ℕ) (section : List ℕ) (overflow message : CompactError)
    → section_at overflow bytes cursor len message ≡ ok (section, next)
    → (next ≡ cursor + len)
      × (cursor + len ≤ length bytes)
      × (section ≡ take len (drop cursor bytes))
unfolding section_at
section_at-slice bytes cursor len next section overflow message e =
    let (end, added, e1) = >>=-eq-ok _ (ok_or (checked_add cursor len) overflow) e in
    let (fits, e2) = ensure-eq-ok (leb end (length bytes)) message e1 in
    let sum = checked_add-sum cursor len end _ added in
    let same : end ≡ next = cc in
    let slice : take len (drop cursor bytes) ≡ section = cc in
    (omega (arith, sum, same), ground (arith, sum), sym slice)

-- Bytes at a cursor are those before `len` more and those behind.
pub At-split :
    (bytes : List ℕ) (cursor len : ℕ)
    → cursor + len ≤ length bytes
    → At bytes cursor (take len (drop cursor bytes) ++ drop len (drop cursor bytes))
      × (length (take len (drop cursor bytes)) ≡ len)
At-split bytes cursor len fits = (
  (
    take cursor bytes,
    sym (
        ap (λ t. take cursor bytes ++ t) (take-append-drop len (drop cursor bytes))
        ∙ take-append-drop cursor bytes),
    omega (arith, length-take cursor bytes),
  ),
  omega (arith, length-take len (drop cursor bytes), length-drop cursor bytes),
)

pub section_at-drop :
    (bytes : List ℕ) (cursor len next : ℕ) (section : List ℕ) (overflow message : CompactError)
    → section_at overflow bytes cursor len message ≡ ok (section, next)
    → (drop cursor bytes ≡ section ++ drop next bytes)
      × (length section ≡ len)
      × (next ≤ length bytes)
section_at-drop bytes cursor len next section overflow message e =
    let (moved, fits, taken) = section_at-slice bytes cursor len next section overflow message e in
    (
      sym (take-append-drop len (drop cursor bytes))
          ∙ ap₂ ◌++◌ (sym taken) (drop-drop len cursor next bytes (sym moved)),
      omega (arith, ap length taken, length-take len (drop cursor bytes), length-drop cursor bytes),
      omega arith,
    )

pub number_at-drop :
    (bytes : List ℕ) (width cursor v next : ℕ) (overflow message : CompactError)
    → All IsByte bytes
    → number_at overflow width bytes cursor message ≡ ok (v, next)
    → (drop cursor bytes ≡ to_le_bytes width v ++ drop next bytes) × (v < 256 ^ width)
unfolding number_at
number_at-drop bytes width cursor v next overflow message octets e =
    let ((slice, end), found, e1) =
      >>=-eq-ok (λ r. ok (from_le_bytes r.0, r.1)) (section_at overflow bytes cursor width message)
        e in
    let read : from_le_bytes slice ≡ v = cc in
    let same : end ≡ next = cc in
    let (split, size, fits) = section_at-drop bytes cursor width end slice overflow message found in
    let (moved, fits', taken) =
      section_at-slice bytes cursor width end slice overflow message found in
    let slice_octets : All IsByte slice =
      rw (taken)
        (All-take IsByte width (drop cursor bytes) (All-drop IsByte cursor bytes octets)) in
    let back : slice ≡ to_le_bytes width v =
      sym (to_le_bytes-from_le_bytes slice slice_octets) ∙ ap₂ to_le_bytes size read in
    (
      split ∙ ap₂ (λ a b. a ++ drop b bytes) back same,
      rw (sym read, sym size) (from_le_bytes-lt slice slice_octets),
    )
