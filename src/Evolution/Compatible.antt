-- ===== src/Evolution/Compatible.antt =====
-- When a reader's revision can read what a writer's revision wrote.
use compact_core.Common.{
  ◌≤◌, ◌≡◌, ◌≢◌, refl, sym, ◌∙◌, arith, List, [], ◌∷◌, ◌++◌, All, true, false, Option, none, some,
  ok, ◌↔◌, ◌⊎◌, inl, inr,
}
use compact_core.Evolution.{
  Json, EvolvedColumn, SchemaRevision, EvolutionAction, EvolutionIssue, EvolutionAssessment, Plan,
  is_compatible, assess, find_id, plan, plan_found, plan_known, plan_added, planned_issues, older,
  type_eq,
}
use compact_core.Schema.{SchemaValueType}

type_eq_iff : (a b : SchemaValueType) → (type_eq a b ≡ true) ↔ (a ≡ b)
type_eq_iff a b = ground arith

no_elements {ℓ} :
    {A : Type ℓ} (xs : List A) → (elim xs [ [] ↦ true | _ ∷ _ ↦ false ]) ≡ true → xs ≡ []
no_elements [] h = refl
no_elements (x ∷ xs) h = cc

append_parts {ℓ} : {A : Type ℓ} (xs ys : List A) → xs ++ ys ≡ [] → (xs ≡ []) × (ys ≡ [])
append_parts [] ys h = (refl, h)
append_parts (x ∷ xs) ys h = cc

module _ (json : Json) where
  -- `r` can be read where the writer has the column `w` for its id: the types agree, and nulls are
  -- not refused. Where the writer has none, `r` has a default or takes null.
  abbrev pub ReadableFrom : Option (EvolvedColumn json) → EvolvedColumn json → Type 0
  ReadableFrom (some w) r = (w.value_type ≡ r.value_type) × (w.nullable ≡ true → r.nullable ≡ true)
  ReadableFrom none r = (r.default ≢ none) ⊎ (r.nullable ≡ true)

  abbrev pub Readable : List (EvolvedColumn json) → EvolvedColumn json → Type 0
  Readable writer r = ReadableFrom (find_id json r.stable_id writer) r

  IsAct : Plan json → Type 0
  IsAct (Plan.act a) = Unit
  IsAct (Plan.issue i) = ⊥

  plan_known-Readable :
      (w r : EvolvedColumn json) → IsAct (plan_known json w r) ↔ ReadableFrom (some w) r
  unfolding plan_known IsAct
  plan_known-Readable w r = ground (arith, type_eq_iff w.value_type r.value_type)

  plan_added-Readable :
      (d : Option json.Value) (r : EvolvedColumn json)
      → IsAct (plan_added json d r) ↔ ((d ≢ none) ⊎ (r.nullable ≡ true))
  unfolding plan_added IsAct
  plan_added-Readable none r = ground arith
  plan_added-Readable (some value) r = (λ h. inl (λ e. cc), λ h. tt)

  plan_found-Readable :
      (o : Option (EvolvedColumn json)) (r : EvolvedColumn json)
      → IsAct (plan_found json o r) ↔ ReadableFrom o r
  unfolding plan_found
  plan_found-Readable none r = plan_added-Readable r.default r
  plan_found-Readable (some w) r = plan_known-Readable w r

  pub Plan-cases :
      (p : Plan json)
      → ((a : EvolutionAction json) × (p ≡ Plan.act a))
        ⊎ ((i : EvolutionIssue json) × (p ≡ Plan.issue i))
  Plan-cases (Plan.act a) = inl (a, refl)
  Plan-cases (Plan.issue i) = inr (i, refl)

  pub issue_left : (i : EvolutionIssue json) (rest : List (EvolutionIssue json)) → i ∷ rest ≡ [] → ⊥
  issue_left i rest e = cc

  no_issues→Readable :
      (writer rs : List (EvolvedColumn json))
      → planned_issues json writer rs ≡ []
      → All (Readable writer) rs
  unfolding planned_issues
  no_issues→Readable writer [] h = tt
  no_issues→Readable writer (r ∷ rs) h = elim (Plan-cases (plan json writer r)) [
    | inl (a, e) ↦
        let acts : IsAct (plan json writer r) = rw e (unfold IsAct in tt) in
        (
          (plan_found-Readable (find_id json r.stable_id writer) r).0 (unfold plan in acts),
          no_issues→Readable writer rs (rw (e, planned_issues) at h),
        )
    | inr (i, e) ↦
        absurd (issue_left i (planned_issues json writer rs) (rw (e, planned_issues) at h))
  ]

  pub Readable→no_issues :
      (writer rs : List (EvolvedColumn json))
      → All (Readable writer) rs
      → planned_issues json writer rs ≡ []
  unfolding planned_issues
  Readable→no_issues writer [] h = refl
  Readable→no_issues writer (r ∷ rs) (hr, hs) = elim (Plan-cases (plan json writer r)) [
    | inl (a, e) ↦ rw (e, planned_issues) (Readable→no_issues writer rs hs)
    | inr (i, e) ↦ absurd (issue_acts i e)
  ]
    where
      issue_acts : (i : EvolutionIssue json) → plan json writer r ≡ Plan.issue i → ⊥
      issue_acts i e =
          let acts : IsAct (plan json writer r) =
            unfold plan in (plan_found-Readable (find_id json r.stable_id writer) r).1 hr in
          unfold IsAct in (rw e at acts)

  -- Between two valid revisions, the assessment is compatible exactly when the reader's revision is
  -- not older and each of its columns can be read: its type is the writer's and it takes null if the
  -- writer's does, or, where the writer has no column of its id, it has a default or takes null.
  pub assess-is_compatible_iff :
      (writer reader : SchemaRevision json) (a : EvolutionAssessment json)
      → assess json writer reader ≡ ok a
      → (is_compatible json a ≡ true)
        ↔ ((writer.revision ≤ reader.revision) × All (Readable writer.columns) reader.columns)
  assess-is_compatible_iff writer reader a h = (there, back)
    where
      issues_are :
          a.issues ≡ older json writer reader ++ planned_issues json writer.columns reader.columns
      issues_are = unfold assess in ground arith

      there :
          is_compatible json a ≡ true
          → (writer.revision ≤ reader.revision) × All (Readable writer.columns) reader.columns
      there c =
          let none_left : a.issues ≡ [] = unfold is_compatible in no_elements a.issues c in
          let (first, second) =
            append_parts (older json writer reader) _ (sym issues_are ∙ none_left) in
          (unfold older in ground arith, no_issues→Readable writer.columns reader.columns second)

      back :
          (writer.revision ≤ reader.revision) × All (Readable writer.columns) reader.columns
          → is_compatible json a ≡ true
      back p =
          let first : older json writer reader ≡ [] = unfold older in ground arith in
          let all : a.issues ≡ [] =
            issues_are ∙ rw first (Readable→no_issues writer.columns reader.columns p.1) in
          unfold is_compatible in rw all
