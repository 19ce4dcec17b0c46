-- ===== src/Evolution/Targets.antt =====
-- The actions of a compatible assessment, and the rows that they make.
use compact_core.Common.{
  ℕ, ◌≡◌, refl, ap, ap₂, ◌∙◌, arith, List, [], ◌∷◌, ◌++◌, true, Option, none, some, ok, inl, inr,
  map, append-nil, String, Bool-cases, not, ◌&&◌,
}
use compact_core.Evolution.{
  Json, EvolvedColumn, SchemaRevision, EvolutionAction, EvolutionAssessment, Plan, is_compatible,
  assess, find_id, plan, plan_found, plan_known, plan_added, planned_actions, planned_issues, drops,
  has_id, column_id, type_eq,
}
use compact_core.Evolution.Compatible.{
  Readable→no_issues, issue_left, assess-is_compatible_iff, Plan-cases,
}

module _ (json : Json) where
  -- The column that an action writes in the target row; a drop writes none.
  abbrev pub targets : List (EvolutionAction json) → List String
  targets [] = []
  targets (EvolutionAction.read id source target ∷ actions) = target ∷ targets actions
  targets (EvolutionAction.fill_default id target value ∷ actions) = target ∷ targets actions
  targets (EvolutionAction.fill_null id target ∷ actions) = target ∷ targets actions
  targets (EvolutionAction.drop id source ∷ actions) = targets actions

  abbrev pub column_name : EvolvedColumn json → String
  column_name c = c.name

  abbrev OneTarget : Plan json → String → Type 0
  OneTarget (Plan.act a) name = targets (a ∷ []) ≡ name ∷ []
  OneTarget (Plan.issue i) name = Unit

  added_target :
      (d : Option json.Value) (r : EvolvedColumn json) → OneTarget (plan_added json d r) r.name
  unfolding plan_added
  added_target (some value) r = refl
  added_target none r = elim (Bool-cases r.nullable) [ inl e ↦ rw e refl | inr e ↦ rw e tt ]

  known_target : (w r : EvolvedColumn json) → OneTarget (plan_known json w r) r.name
  unfolding plan_known
  known_target w r = elim (Bool-cases (type_eq w.value_type r.value_type)) [
    | inl same ↦ elim (Bool-cases (w.nullable && not r.nullable)) [
      | inl tight ↦ rw (same, tight) tt
      | inr loose ↦ rw (same, loose) refl
    ]
    | inr changed ↦ rw changed tt
  ]

  found_target :
      (o : Option (EvolvedColumn json)) (r : EvolvedColumn json)
      → OneTarget (plan_found json o r) r.name
  unfolding plan_found
  found_target none r = added_target r.default r
  found_target (some w) r = known_target w r

  targets-append :
      (xs ys : List (EvolutionAction json)) → targets (xs ++ ys) ≡ targets xs ++ targets ys
  targets-append [] ys = refl
  targets-append (EvolutionAction.read id source target ∷ xs) ys =
      ap (λ t. target ∷ t) (targets-append xs ys)
  targets-append (EvolutionAction.fill_default id target value ∷ xs) ys =
      ap (λ t. target ∷ t) (targets-append xs ys)
  targets-append (EvolutionAction.fill_null id target ∷ xs) ys =
      ap (λ t. target ∷ t) (targets-append xs ys)
  targets-append (EvolutionAction.drop id source ∷ xs) ys = targets-append xs ys

  targets-planned :
      (writer rs : List (EvolvedColumn json))
      → planned_issues json writer rs ≡ []
      → targets (planned_actions json writer rs) ≡ map column_name rs
  unfolding planned_issues planned_actions
  targets-planned writer [] h = refl
  targets-planned writer (r ∷ rs) h = elim (Plan-cases json (plan json writer r)) [
    | inl (a, e) ↦
        let found : OneTarget (plan json writer r) r.name =
          unfold plan in found_target (find_id json r.stable_id writer) r in
        let one : targets (a ∷ []) ≡ r.name ∷ [] = rw e at found in
        rw (e, planned_actions)
          (targets-append (a ∷ []) (planned_actions json writer rs)
            ∙ ap₂ ◌++◌ one (targets-planned writer rs (rw (e, planned_issues) at h)))
    | inr (i, e) ↦
        absurd (issue_left json i (planned_issues json writer rs) (rw (e, planned_issues) at h))
  ]

  targets-drops : (ids : List ℕ) (ws : List (EvolvedColumn json)) → targets (drops json ids ws) ≡ []
  unfolding drops
  targets-drops ids [] = refl
  targets-drops ids (w ∷ ws) = elim (Bool-cases (has_id w.stable_id ids)) [
    | inl kept ↦ rw kept (targets-drops ids ws)
    | inr dropped ↦ rw dropped (targets-drops ids ws)
  ]

  -- The actions of a compatible assessment write each column of the reader once, in the reader's
  -- order, and nothing else.
  pub assess-targets :
      (writer reader : SchemaRevision json) (a : EvolutionAssessment json)
      → assess json writer reader ≡ ok a
      → is_compatible json a ≡ true
      → targets a.actions ≡ map column_name reader.columns
  assess-targets writer reader a h c =
      let readable = ((assess-is_compatible_iff json writer reader a h).0 c).1 in
      let none_left = Readable→no_issues json writer.columns reader.columns readable in
      let ids = map (column_id json) reader.columns in
      let planned = planned_actions json writer.columns reader.columns in
      ap targets (actions_are a h)
      ∙ targets-append planned (drops json ids writer.columns)
      ∙ ap₂ ◌++◌ (targets-planned writer.columns reader.columns none_left)
          (targets-drops ids writer.columns)
      ∙ append-nil (map column_name reader.columns)
    where
      actions_are :
          (a : EvolutionAssessment json)
          → assess json writer reader ≡ ok a
          → a.actions
            ≡ planned_actions json writer.columns reader.columns
              ++ drops json (map (column_id json) reader.columns) writer.columns
      actions_are a h = unfold assess in ground arith
