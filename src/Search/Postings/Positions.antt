-- ===== src/Search/Postings/Positions.antt =====
-- The positions of one posting.
use compact_core.Common.{
  ℕ, suc, ◌-◌, ◌≤◌, ◌≡◌, refl, ap, arith, List, [], ◌∷◌, ◌++◌, length, length-append, All, IsU64,
  ok, some,
}
use compact_core.Cursor.At.{At, At-room, read-At, length-encode_u64_least}
use compact_core.Primitives.Varint.{encode_u64}
use compact_core.Primitives.Delta.{checked_add}
use compact_core.Search.Postings.{position_deltas, encode_position_deltas}
use compact_core.Search.Postings.Decode.{
  read_positions, read_positions_loop, max_collection_entries,
}
use compact_core.Search.Postings.Order.{Rising, Increasing, validate_positions_iff}

-- Not falling, and from `previous` on.
abbrev pub Ascending : ℕ → List ℕ → Type 0
Ascending previous [] = Unit
Ascending previous (x ∷ xs) = (previous ≤ x) × Ascending x xs

pub Rising→Ascending : (previous : ℕ) (xs : List ℕ) → Rising previous xs → Ascending previous xs
Rising→Ascending previous [] r = tt
Rising→Ascending previous (x ∷ xs) r = (omega arith, Rising→Ascending x xs r.1)

pub Increasing→Ascending : (xs : List ℕ) → Increasing xs → Ascending 0 xs
Increasing→Ascending [] r = tt
Increasing→Ascending (x ∷ xs) r = (omega arith, Rising→Ascending x xs r)

pub checked_add-delta :
    (previous x : ℕ) → previous ≤ x → IsU64 x → checked_add previous (x - previous) ≡ some x
checked_add-delta previous x le w = ground arith

read_positions_loop-At :
    (xs bytes : List ℕ) (cursor previous : ℕ) (back : List ℕ)
    → Ascending previous xs
    → All IsU64 xs
    → At bytes cursor (encode_u64 (position_deltas previous xs) ++ back)
    → (next : ℕ) × (read_positions_loop (length xs) bytes cursor previous ≡ ok (xs, next))
      × At bytes next back
unfolding read_positions_loop position_deltas encode_u64
read_positions_loop-At [] bytes cursor previous back r w at = (cursor, refl, at)
read_positions_loop-At (x ∷ xs) bytes cursor previous back r w at =
    let (behind, first, at') =
      read-At bytes cursor (x - previous) (position_deltas x xs) back (omega arith) at in
    let (next, others, at'') = read_positions_loop-At xs bytes behind x back r.1 w.1 at' in
    (next, rw (first, checked_add-delta previous x r.0 w.0, others) refl, at'')

pub length-position_deltas :
    (previous : ℕ) (xs : List ℕ) → length (position_deltas previous xs) ≡ length xs
unfolding position_deltas
length-position_deltas previous [] = refl
length-position_deltas previous (x ∷ xs) = ap suc (length-position_deltas x xs)

pub read_positions-At :
    (xs bytes : List ℕ) (cursor : ℕ) (back : List ℕ)
    → Increasing xs
    → All IsU64 xs
    → length xs ≤ max_collection_entries
    → At bytes cursor (encode_position_deltas xs ++ back)
    → (next : ℕ) × (read_positions bytes cursor (length xs) ≡ ok (xs, next)) × At bytes next back
unfolding read_positions encode_position_deltas position_deltas
read_positions-At xs bytes cursor back r w few at =
    let deltas = position_deltas 0 xs in
    let room : length xs ≤ length bytes - cursor = omega (
      arith,
      At-room bytes cursor (encode_u64 deltas ++ back) at,
      length-append (encode_u64 deltas) back,
      length-encode_u64_least deltas,
      length-position_deltas 0 xs,
    ) in
    let (next, found, at') =
      read_positions_loop-At xs bytes cursor 0 back (Increasing→Ascending xs r) w at in
    (next, rw (found, (validate_positions_iff xs).1 r) (ground arith), at')
