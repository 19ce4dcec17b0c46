-- ===== src/Cmp3/Strings/Entries.antt =====
-- The dictionary of a column: its entries and the ids of the values in it.
use compact_core.Common.{
  ℕ, zero, suc, ◌^◌, ◌≤◌, ◌<◌, ◌≡◌, refl, sym, ap, ◌∙◌, arith, List, [], ◌∷◌, ◌++◌, true, Option,
  none, some, Option-cases, Bool-cases, inl, inr, ltb, leb, ◌==◌, ==_iff, length, length-append,
  append_assoc, append-nil, drop, get_elem?, bytes_eq, bytes_eq→eq, All, All-append, IsU64, ok,
  >>=-eq-ok, ensure-eq-ok,
}
use mathlib.Core.Option
use compact_core.Cursor.At.{At-start, At-drop, At-length, read_one-At, length-encode_u64_least}
use compact_core.Primitives.Varint.{encode_u64}
use compact_core.Primitives.Varint.RoundTrip.{decode_u64-encode_u64}
use compact_core.Cmp3.Strings.{
  max_dictionary_entries, encode_stored, id_in, add_entry, build_dictionary, encode_dictionary,
}
use compact_core.Cmp3.Strings.Read.{look_up, decode_dictionary}
use compact_core.Cmp3.Strings.Stored.{IsText, read_texts-At}

get_elem?-append :
    (xs ys : List (List ℕ)) (i : ℕ) (x : List ℕ)
    → get_elem? xs i ≡ some x
    → get_elem? (xs ++ ys) i ≡ some x
get_elem?-append [] ys i x e = cc
get_elem?-append (z ∷ xs) ys zero x e = e
get_elem?-append (z ∷ xs) ys (suc i) x e = get_elem?-append xs ys i x e

get_elem?-length : (xs : List (List ℕ)) (x : List ℕ) → get_elem? (xs ++ x ∷ []) (length xs) ≡ some x
get_elem?-length [] x = refl
get_elem?-length (z ∷ xs) x = get_elem?-length xs x

get_elem?-lt : (xs : List (List ℕ)) (i : ℕ) (x : List ℕ) → get_elem? xs i ≡ some x → i < length xs
get_elem?-lt [] i x e = cc
get_elem?-lt (z ∷ xs) zero x e = omega arith
get_elem?-lt (z ∷ xs) (suc i) x e = omega (arith, get_elem?-lt xs i x e)

id_in-found :
    (value : List ℕ) (entries : List (List ℕ)) (id : ℕ)
    → id_in value entries ≡ some id
    → get_elem? entries id ≡ some value
unfolding id_in
id_in-found value [] id e = cc
id_in-found value (entry ∷ entries) id e = elim (Bool-cases (bytes_eq entry value)) [
  | inl same ↦
      let at : some 0 ≡ some id = rw (same) at e in
      let first : 0 ≡ id = cc in rw (sym first) (ap some (bytes_eq→eq entry value same))
  | inr other ↦ elim (Option-cases (id_in value entries)) [
    | inl none_in ↦
        let at : Option.map suc (id_in value entries) ≡ some id = rw (other) at e in
        absurd (found_none none_in at)
    | inr (i, found) ↦
        let at : Option.map suc (id_in value entries) ≡ some id = rw (other) at e in
        let next : some (suc i) ≡ some id = rw (found) at at in
        let same_id : suc i ≡ id = cc in rw (sym same_id) (id_in-found value entries i found)
  ]
]
  where
    found_none : {o : Option ℕ} {i : ℕ} → o ≡ none → Option.map suc o ≡ some i → ⊥
    found_none {o} {i} e at = let bad : none ≡ some i = rw (e) at at in cc

-- A dictionary that `step` made of `entries`, with the id of `value` in it.
record Added (entries : List (List ℕ)) (value : List ℕ) (made : List (List ℕ)) (id : ℕ)
    : Type 0 where
  more : List (List ℕ)
  extended : made ≡ entries ++ more
  found : get_elem? made id ≡ some value
  few : length made ≤ max_dictionary_entries
  texts : All IsText made

add_entry-Added :
    (value : List ℕ) (entries : List (List ℕ)) (r : List (List ℕ) × ℕ)
    → length entries ≤ max_dictionary_entries
    → All IsText entries
    → IsText value
    → add_entry value entries (id_in value entries) ≡ ok r
    → Added entries value r.0 r.1
add_entry-Added value entries r few texts text e = elim (Option-cases (id_in value entries)) [
  | inl missing ↦
      let at = rw (missing) at e in
      let (room, e1) = ensure-eq-ok (ltb (length entries) max_dictionary_entries) _ at in
      let same : (entries ++ value ∷ [], length entries) ≡ r = cc in
      rw (sym same) (record {
        more = value ∷ [];
        extended = refl;
        found = get_elem?-length entries value;
        few = ground (arith, length-append entries (value ∷ []));
        texts = All-append IsText entries (value ∷ []) texts (text, tt);
      })
  | inr (id, known) ↦
      let at = rw (known) at e in
      let same : (entries, id) ≡ r = cc in
      rw (sym same) (record {
        more = [];
        extended = sym (append-nil entries);
        found = id_in-found value entries id known;
        few = few;
        texts = texts;
      })
]

-- The whole loop: the ids lead back to the values in the final dictionary.
record Built (entries values final : List (List ℕ)) (ids : List ℕ) : Type 0 where
  more : List (List ℕ)
  extended : final ≡ entries ++ more
  looked : look_up final ids ≡ ok values
  counted : length ids ≡ length values
  small : All IsU64 ids
  few : length final ≤ max_dictionary_entries
  texts : All IsText final

build_dictionary-Built :
    (entries values : List (List ℕ)) (r : List (List ℕ) × List ℕ)
    → length entries ≤ max_dictionary_entries
    → All IsText entries
    → All IsText values
    → build_dictionary entries values ≡ ok r
    → Built entries values r.0 r.1
unfolding build_dictionary look_up
build_dictionary-Built entries [] r few texts _ e =
    let same : (entries, []) ≡ r = cc in
    rw (sym same) (record {
      more = [];
      extended = sym (append-nil entries);
      looked = refl;
      counted = refl;
      small = tt;
      few = few;
      texts = texts;
    })
build_dictionary-Built entries (value ∷ values) r few texts (text, others) e =
    let (step, taken, e1) = >>=-eq-ok _ (add_entry value entries (id_in value entries)) e in
    let (rest, built, e2) = >>=-eq-ok _ (build_dictionary step.0 values) e1 in
    let added = add_entry-Added value entries step few texts text taken in
    let all = build_dictionary-Built step.0 values rest added.few added.texts others built in
    let same : (rest.0, step.1 ∷ rest.1) ≡ r = cc in
    let found : get_elem? rest.0 step.1 ≡ some value =
      rw (all.extended) (get_elem?-append step.0 all.more step.1 value added.found) in
    let low = get_elem?-lt rest.0 step.1 value found in
    rw (sym same) (record {
      more = added.more ++ all.more;
      extended =
          all.extended
          ∙ ap (λ (t : List (List ℕ)). t ++ all.more) added.extended
          ∙ append_assoc entries added.more all.more;
      looked = rw (found, all.looked) refl;
      counted = ap suc all.counted;
      small = (omega (arith, all.few), all.small);
      few = all.few;
      texts = all.texts;
    })

pub decode_dictionary-encode_dictionary :
    (values : List (List ℕ)) (bytes : List ℕ)
    → All IsText values
    → length bytes < 2 ^ 64
    → encode_dictionary values ≡ ok bytes
    → (decode_dictionary bytes (length values) ≡ ok values) × (length values ≤ length bytes)
unfolding encode_dictionary decode_dictionary
decode_dictionary-encode_dictionary values bytes texts fits e =
    let (r, built, e1) = >>=-eq-ok _ (build_dictionary [] values) e in
    let all = build_dictionary-Built [] values r (omega arith) tt texts built in
    let same : encode_u64 (length r.0 ∷ []) ++ (encode_stored r.0 ++ encode_u64 r.1) ≡ bytes = cc in
    let few = all.few in
    let (c1, r1, a1) =
      read_one-At bytes 0 (length r.0) (encode_stored r.0 ++ encode_u64 r.1) (omega arith)
        (rw (same) (At-start bytes)) in
    let (c2, r2, a2) = read_texts-At bytes fits c1 r.0 (encode_u64 r.1) all.texts a1 in
    let tail : drop c2 bytes ≡ encode_u64 r.1 = At-drop bytes c2 (encode_u64 r.1) a2 in
    let within : leb (length r.0) max_dictionary_entries ≡ true = ground arith in
    let count : (length r.1 == length values) ≡ true = (==_iff _ _).1 all.counted in
    (
      rw (r1, within, r2, tail, decode_u64-encode_u64 r.1 all.small, count, all.looked) refl,
      omega
          (arith, At-length bytes c2 (encode_u64 r.1) a2, length-encode_u64_least r.1, all.counted),
    )
