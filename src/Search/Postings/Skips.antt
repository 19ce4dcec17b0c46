-- ===== src/Search/Postings/Skips.antt =====
-- The skip table that `encode_postings` writes, and how it reads back.
use compact_core.Common.{
  ℕ, Bool, true, false, zero, suc, ◌+◌, ◌*◌, ◌/◌, ◌%◌, ◌≤◌, ◌<◌, ◌≡◌, refl, sym, ap, ◌∙◌, arith,
  List, [], ◌∷◌, ◌++◌, length, length-append, append_assoc, append-nil, All, IsU64, ok,
  if◌then◌else◌, ◌==◌,
}
use compact_core.Primitives.Varint.{encode_u64}
use compact_core.Search.Postings.{
  Posting, SkipEntry, Sections, encode_posting, encode_postings_loop, encode_skips,
}
use compact_core.Search.Postings.Decode.{read_skip, decode_skips_loop, decode_skips}
use compact_core.Cursor.At.{At, At-start, At-end, At-room, read-At, length-encode_u64_least}
use native.Mathlib.Nat.{div-eq_of_lt-le, mul-div_cancel, div-add-mod, mul_comm, suc-mul}

-- The entry that a round of the loop of `encode_postings` would write.
abbrev pub entry_at : ℕ → ℕ → Posting → Sections → SkipEntry
entry_at ordinal previous p s = record {
  ordinal = ordinal;
  first_doc_id = p.doc_id;
  previous_doc_id = previous;
  doc_ids_offset = length s.doc_ids;
  frequencies_offset = length s.frequencies;
  positions_offset = length s.positions;
}

-- The entries that the loop adds to `s.skips`.
unfoldable pub entries_from : ℕ → ℕ → ℕ → List Posting → Sections → List SkipEntry
entries_from step ordinal previous [] s = []
entries_from step ordinal previous (p ∷ ps) s =
    let rest =
      entries_from step (ordinal + 1) p.doc_id ps (encode_posting step ordinal previous p s) in
    if ordinal % step == 0 then entry_at ordinal previous p s ∷ rest else rest

pushed :
    (on : Bool) (front : List SkipEntry) (e : SkipEntry) (rest : List SkipEntry)
    → (if on then front ++ e ∷ [] else front) ++ rest ≡ front ++ (if on then e ∷ rest else rest)
pushed true front e rest = append_assoc front (e ∷ []) rest
pushed false front e rest = refl

pub skips-entries_from :
    (step ordinal previous : ℕ) (ps : List Posting) (s : Sections)
    → (encode_postings_loop step ordinal previous ps s).skips
      ≡ s.skips ++ entries_from step ordinal previous ps s
unfolding encode_postings_loop encode_posting entries_from
skips-entries_from step ordinal previous [] s = sym (append-nil s.skips)
skips-entries_from step ordinal previous (p ∷ ps) s =
    skips-entries_from step (ordinal + 1) p.doc_id ps (encode_posting step ordinal previous p s)
    ∙ pushed (ordinal % step == 0) s.skips (entry_at ordinal previous p s) _

-- A multiple of `step` is the first one from itself on.
pub on_step :
    (step idx ordinal : ℕ)
    → 0 < step
    → ordinal ≤ idx * step
    → idx * step < ordinal + step
    → ordinal % step ≡ 0
    → ordinal ≡ idx * step
on_step step idx ordinal pos low high on =
    let q = ordinal / step in
    let whole : step * q ≡ ordinal = omega (arith, div-add-mod ordinal step) in
    let same : idx * step / step ≡ q =
      div-eq_of_lt-le step {m = idx * step} (omega (arith, mul_comm q step))
        (omega (arith, mul_comm q step, suc-mul q step)) in
    sym whole ∙ mul_comm step q ∙ ap (λ (t : ℕ). t * step) (sym same ∙ mul-div_cancel idx pos)

abbrev pub WordEntry : SkipEntry → Type 0
WordEntry e =
    IsU64 e.ordinal
    × IsU64 e.first_doc_id
    × IsU64 e.previous_doc_id
    × IsU64 e.doc_ids_offset
    × IsU64 e.frequencies_offset
    × IsU64 e.positions_offset

abbrev fields : SkipEntry → List ℕ
fields e =
    e.ordinal ∷ e.first_doc_id ∷ e.previous_doc_id ∷ e.doc_ids_offset ∷ e.frequencies_offset
    ∷ e.positions_offset ∷ []

read_skip-At :
    (bytes : List ℕ) (cursor : ℕ) (e : SkipEntry) (back : List ℕ)
    → WordEntry e
    → At bytes cursor (encode_u64 (fields e) ++ back)
    → (next : ℕ) × (read_skip bytes cursor ≡ ok (e, next)) × At bytes next back
unfolding read_skip encode_u64
read_skip-At bytes c0 e back (w1, w2, w3, w4, w5, w6) at0 =
    let (c1, r1, at1) =
      read-At bytes c0 e.ordinal
        (e.first_doc_id ∷ e.previous_doc_id ∷ e.doc_ids_offset ∷ e.frequencies_offset
          ∷ e.positions_offset ∷ [])
        back w1 at0 in
    let (c2, r2, at2) =
      read-At bytes c1 e.first_doc_id
        (e.previous_doc_id ∷ e.doc_ids_offset ∷ e.frequencies_offset ∷ e.positions_offset ∷ []) back
        w2 at1 in
    let (c3, r3, at3) =
      read-At bytes c2 e.previous_doc_id
        (e.doc_ids_offset ∷ e.frequencies_offset ∷ e.positions_offset ∷ []) back w3 at2 in
    let (c4, r4, at4) =
      read-At bytes c3 e.doc_ids_offset (e.frequencies_offset ∷ e.positions_offset ∷ []) back w4
        at3 in
    let (c5, r5, at5) =
      read-At bytes c4 e.frequencies_offset (e.positions_offset ∷ []) back w5 at4 in
    let (c6, r6, at6) = read-At bytes c5 e.positions_offset [] back w6 at5 in
    (c6, rw (r1, r2, r3, r4, r5, r6) refl, at6)

decode_skips_loop-At :
    (fuel : ℕ) (es : List SkipEntry) (bytes : List ℕ) (cursor : ℕ)
    → length es ≤ fuel
    → All WordEntry es
    → At bytes cursor (encode_skips es)
    → decode_skips_loop fuel bytes cursor ≡ ok es
unfolding decode_skips_loop encode_skips
decode_skips_loop-At zero [] bytes cursor le w at = refl
decode_skips_loop-At zero (e ∷ es) bytes cursor le w at = absurd (omega arith)
decode_skips_loop-At (suc fuel) [] bytes cursor le w at = ground (arith, At-end bytes cursor at)
decode_skips_loop-At (suc fuel) (e ∷ es) bytes cursor le w at =
    let room : cursor < length bytes = omega (
      arith,
      At-room bytes cursor (encode_u64 (fields e) ++ encode_skips es) at,
      length-append (encode_u64 (fields e)) (encode_skips es),
      length-encode_u64_least (fields e),
    ) in
    let (next, entry, at') = read_skip-At bytes cursor e (encode_skips es) w.0 at in
    rw (entry, decode_skips_loop-At fuel es bytes next (omega arith) w.1 at') (ground arith)

length-encode_skips_least : (es : List SkipEntry) → length es ≤ length (encode_skips es)
unfolding encode_skips
length-encode_skips_least [] = omega arith
length-encode_skips_least (e ∷ es) = omega (
  arith,
  length-append (encode_u64 (fields e)) (encode_skips es),
  length-encode_u64_least (fields e),
  length-encode_skips_least es,
)

-- Any skip table of u64 values reads back.
pub decode_skips-encode_skips :
    (es : List SkipEntry) → All WordEntry es → decode_skips (encode_skips es) ≡ ok es
unfolding decode_skips
decode_skips-encode_skips es w =
    decode_skips_loop-At (length (encode_skips es)) es (encode_skips es) 0
      (length-encode_skips_least es) w (At-start (encode_skips es))
