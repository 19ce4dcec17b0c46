-- ===== src/Search/Postings/Order.antt =====
-- Which posting lists `validate_postings` accepts.
use compact_core.Common.{
  ℕ, ◌<◌, ◌≡◌, refl, arith, List, [], ◌∷◌, some, All, ok, ◌>>◌, >>=-eq-ok, ◌↔◌, map,
}
use compact_core.Search.Postings.{
  Posting, validate_positions, validate_windows, validate_postings, validate_postings_loop, after,
}

-- Strictly increasing, and above `previous`.
abbrev pub Rising : ℕ → List ℕ → Type 0
Rising previous [] = Unit
Rising previous (x ∷ xs) = (previous < x) × Rising x xs

-- Strictly increasing.
abbrev pub Increasing : List ℕ → Type 0
Increasing [] = Unit
Increasing (x ∷ xs) = Rising x xs

abbrev pub doc_ids_of : List Posting → List ℕ
doc_ids_of = map (λ p. p.doc_id)

abbrev pub Ordered : List Posting → Type 0
Ordered postings = Increasing (doc_ids_of postings) × All (λ p. Increasing p.positions) postings

validate_windows_iff :
    (previous : ℕ) (xs : List ℕ) → (validate_windows previous xs ≡ ok tt) ↔ Rising previous xs
unfolding validate_windows
validate_windows_iff previous [] = ((λ h. tt), (λ h. refl))
validate_windows_iff previous (x ∷ xs) = (
  (λ h. ground (arith, (validate_windows_iff x xs).0)),
  (λ h. ground (arith, (validate_windows_iff x xs).1)),
)

pub validate_positions_iff : (xs : List ℕ) → (validate_positions xs ≡ ok tt) ↔ Increasing xs
unfolding validate_positions
validate_positions_iff [] = ((λ h. tt), (λ h. refl))
validate_positions_iff (x ∷ xs) = validate_windows_iff x xs

validate_postings_loop_iff :
    (previous : ℕ) (ps : List Posting)
    → (validate_postings_loop (some previous) ps ≡ ok tt)
      ↔ (Rising previous (doc_ids_of ps) × All (λ p. Increasing p.positions) ps)
unfolding validate_postings_loop
validate_postings_loop_iff previous [] = ((λ h. (tt, tt)), (λ h. refl))
validate_postings_loop_iff previous (p ∷ ps) = (
  (λ h.
      let (_, above, more) =
        >>=-eq-ok (λ _. validate_positions p.positions >> validate_postings_loop (some p.doc_id) ps)
          (after (some previous) p.doc_id _) h in
      let (_, good, others) =
        >>=-eq-ok (λ _. validate_postings_loop (some p.doc_id) ps) (validate_positions p.positions)
          more in
      let rest = (validate_postings_loop_iff p.doc_id ps).0 others in
      ((ground arith, rest.0), ((validate_positions_iff p.positions).0 good, rest.1))),
  (λ h.
      rw
        (
          (validate_positions_iff p.positions).1 h.1.0,
          (validate_postings_loop_iff p.doc_id ps).1 (h.0.1, h.1.1),
        )
        (ground arith)),
)

-- `validate_postings` accepts exactly the lists whose docIDs are strictly increasing and whose
-- postings each have strictly increasing positions.
pub validate_postings_iff : (ps : List Posting) → (validate_postings ps ≡ ok tt) ↔ Ordered ps
unfolding validate_postings validate_postings_loop
validate_postings_iff [] = ((λ h. (tt, tt)), (λ h. refl))
validate_postings_iff (p ∷ ps) = (
  (λ h.
      let (_, good, others) =
        >>=-eq-ok (λ _. validate_postings_loop (some p.doc_id) ps) (validate_positions p.positions)
          h in
      let rest = (validate_postings_loop_iff p.doc_id ps).0 others in
      (rest.0, ((validate_positions_iff p.positions).0 good, rest.1))),
  (λ h.
      rw
        (
          (validate_positions_iff p.positions).1 h.1.0,
          (validate_postings_loop_iff p.doc_id ps).1 (h.0, h.1.1),
        )
        refl),
)
