-- ===== src/Evolution.antt =====
-- crates/compact-core/src/schema/evolution.rs: assessing a writer's schema revision against a
-- reader's, and projecting a row. A JSON value is serde's: its type and its tests are a parameter.
pub mod Compatible
pub mod Targets
mod Tests
use compact_core.Common.{
  ℕ, String, List, [], ◌∷◌, ◌++◌, Bool, true, false, not, ◌&&◌, ◌||◌, Option, none, some, ltb, ◌==◌,
  if◌then◌else◌, Result, ok, err, ◌>>=◌, ◌>>◌, ensure, CompactError, invalid_input, map,
}
use compact_core.Schema.{
  Schema, ColumnSchema, SchemaValueType, SchemaCodec, bool, string, u64, supported_columns_v3,
}
use text.Mathlib.Text.{◌==◌ as str_eq}

-- `serde_json::Value`, with the tests that `validate_default` makes, and `serde_json::Map`, whose
-- order of keys is its own.
pub record Json : Type 1 where
  pub Value : Type 0
  pub null : Value
  pub is_null : Value → Bool
  pub is_boolean : Value → Bool
  pub is_string : Value → Bool
  pub is_u64 : Value → Bool
  pub Map : Type 0
  pub get : String → Map → Option Value
  pub insert : String → Value → Map → Map

-- `==` of `SchemaValueType`.
abbrev type_eq : SchemaValueType → SchemaValueType → Bool
type_eq bool bool = true
type_eq string string = true
type_eq u64 u64 = true
type_eq a b = false

-- The `HashSet`s of `validate` and `assess` as lists: `contains` on ids and on names.
has_id : ℕ → List ℕ → Bool
has_id id [] = false
has_id id (x ∷ xs) = x == id || has_id id xs

has_name : String → List String → Bool
has_name name [] = false
has_name name (x ∷ xs) = str_eq x name || has_name name xs

abbrev names_not_unique : CompactError
names_not_unique = invalid_input "schema revision names and aliases must be unique"

validate_name : String → Result (Unit {0})
validate_name name =
    ensure (not (str_eq name "")) (invalid_input "schema revision name must not be empty")

-- The loop over the aliases of a column, which adds them to `names`.
validate_aliases : List String → List String → Result (List String)
validate_aliases names [] = ok names
validate_aliases names (alias ∷ aliases) = do
  validate_name alias
  ensure (not (has_name alias names)) names_not_unique
  validate_aliases (alias ∷ names) aliases

module _ (json : Json) where
  open json use {Value, null, is_null, is_boolean, is_string, is_u64, Map, get, insert}

  pub record EvolvedColumn : Type 0 where
    pub stable_id : ℕ
    pub name : String
    pub value_type : SchemaValueType
    pub codec : SchemaCodec
    pub nullable : Bool
    pub aliases : List String
    pub default : Option Value

  pub record SchemaRevision : Type 0 where
    pub revision : ℕ
    pub columns : List EvolvedColumn

  pub data EvolutionAction : Type 0 where
    read : (stable_id : ℕ) (source_name target_name : String) → EvolutionAction
    fill_default : (stable_id : ℕ) (target_name : String) (value : Value) → EvolutionAction
    fill_null : (stable_id : ℕ) (target_name : String) → EvolutionAction
    drop : (stable_id : ℕ) (source_name : String) → EvolutionAction

  pub data EvolutionIssue : Type 0 where
    reader_revision_is_older : (writer_revision reader_revision : ℕ) → EvolutionIssue
    value_type_changed :
        (stable_id : ℕ) (writer_type reader_type : SchemaValueType) → EvolutionIssue
    nullability_tightened : (stable_id : ℕ) (column : String) → EvolutionIssue
    required_column_added_without_default : (stable_id : ℕ) (column : String) → EvolutionIssue

  pub record EvolutionAssessment : Type 0 where
    pub writer_revision : ℕ
    pub reader_revision : ℕ
    pub actions : List EvolutionAction
    pub issues : List EvolutionIssue

  unfoldable pub is_compatible : EvolutionAssessment → Bool
  is_compatible a = elim (a.issues) [ [] ↦ true | _ ∷ _ ↦ false ]

  -- `value.as_u64().is_some()` and its like.
  matches_type : SchemaValueType → Value → Bool
  matches_type bool value = is_boolean value
  matches_type string value = is_string value
  matches_type u64 value = is_u64 value

  check_default : Option Value → Bool → SchemaValueType → Result (Unit {0})
  check_default none nullable t = ok tt
  check_default (some value) nullable t =
      if is_null value
      then ensure nullable (invalid_input "required column default must not be null")
      else ensure (matches_type t value) (invalid_input "column default does not match value type")

  validate_default : EvolvedColumn → Result (Unit {0})
  unfolding check_default
  validate_default c = check_default c.default c.nullable c.value_type

  -- The loop of `validate`, with the ids and names seen so far.
  validate_columns : List ℕ → List String → List EvolvedColumn → Result (Unit {0})
  validate_columns stable_ids names [] = ok tt
  validate_columns stable_ids names (column ∷ columns) = do
    ensure (not (column.stable_id == 0)) (invalid_input "stable column id must be positive")
    ensure (not (has_id column.stable_id stable_ids))
        (invalid_input "stable column ids must be unique")
    validate_name column.name
    ensure (not (has_name column.name names)) names_not_unique
    names' ← validate_aliases (column.name ∷ names) column.aliases
    validate_default column
    validate_columns (column.stable_id ∷ stable_ids) names' columns

  physical_column : EvolvedColumn → ColumnSchema
  physical_column c = record {
    name = c.name;
    value_type = c.value_type;
    codec = c.codec;
    nullable = c.nullable;
  }

  unfoldable pub physical_schema : SchemaRevision → Schema
  unfolding physical_column
  physical_schema r = record { columns = map physical_column r.columns }

  no_columns_left : List EvolvedColumn → Bool
  no_columns_left [] = true
  no_columns_left (c ∷ cs) = false

  unfoldable pub validate : SchemaRevision → Result (Unit {0})
  unfolding validate_columns no_columns_left validate_name validate_aliases validate_default has_id
      has_name matches_type
  validate r = do
    ensure (not (r.revision == 0)) (invalid_input "schema revision must be positive")
    ensure (not (no_columns_left r.columns)) (invalid_input "schema revision must contain columns")
    validate_columns [] [] r.columns
    physical ← supported_columns_v3 (physical_schema r)
    ok tt

  -- `writer_by_id`: a `HashMap` keeps the last column of an id.
  pub find_id : ℕ → List EvolvedColumn → Option EvolvedColumn
  find_id id [] = none
  find_id id (c ∷ cs) = elim (find_id id cs) [
    | some later ↦ some later
    | none ↦ if c.stable_id == id then some c else none
  ]

  -- What `assess` does with a reader column: one action, or one issue.
  pub data Plan : Type 0 where
    act : EvolutionAction → Plan
    issue : EvolutionIssue → Plan

  plan_known : EvolvedColumn → EvolvedColumn → Plan
  plan_known w r =
      if not (type_eq w.value_type r.value_type)
      then issue (value_type_changed r.stable_id w.value_type r.value_type)
      else if w.nullable && not r.nullable
      then issue (nullability_tightened r.stable_id r.name)
      else act (read r.stable_id w.name r.name)

  plan_added : Option Value → EvolvedColumn → Plan
  plan_added (some value) r = act (fill_default r.stable_id r.name value)
  plan_added none r =
      if r.nullable
      then act (fill_null r.stable_id r.name)
      else issue (required_column_added_without_default r.stable_id r.name)

  plan_found : Option EvolvedColumn → EvolvedColumn → Plan
  plan_found (some w) r = plan_known w r
  plan_found none r = plan_added r.default r

  plan : List EvolvedColumn → EvolvedColumn → Plan
  plan writer r = plan_found (find_id r.stable_id writer) r

  -- The pushes to `actions` and to `issues` of the loop over the reader's columns.
  pub planned_actions : List EvolvedColumn → List EvolvedColumn → List EvolutionAction
  planned_actions writer [] = []
  planned_actions writer (r ∷ rs) =
      let rest = planned_actions writer rs in
      elim (plan writer r) [ act a ↦ a ∷ rest | issue i ↦ rest ]

  pub planned_issues : List EvolvedColumn → List EvolvedColumn → List EvolutionIssue
  planned_issues writer [] = []
  planned_issues writer (r ∷ rs) =
      let rest = planned_issues writer rs in
      elim (plan writer r) [ act a ↦ rest | issue i ↦ i ∷ rest ]

  -- The loop over the writer's columns, with the reader's ids.
  drops : List ℕ → List EvolvedColumn → List EvolutionAction
  drops reader_ids [] = []
  drops reader_ids (w ∷ ws) =
      let rest = drops reader_ids ws in
      if has_id w.stable_id reader_ids then rest else drop w.stable_id w.name ∷ rest

  column_id : EvolvedColumn → ℕ
  column_id c = c.stable_id

  older : SchemaRevision → SchemaRevision → List EvolutionIssue
  older writer reader =
      if ltb reader.revision writer.revision
      then reader_revision_is_older writer.revision reader.revision ∷ []
      else []

  unfoldable pub assess : SchemaRevision → SchemaRevision → Result EvolutionAssessment
  unfolding planned_actions planned_issues drops older plan plan_found plan_known plan_added find_id
      column_id has_id
  assess writer reader = do
    validate writer
    validate reader
    ok (record {
      writer_revision = writer.revision;
      reader_revision = reader.revision;
      actions =
          planned_actions writer.columns reader.columns
          ++ drops (map column_id reader.columns) writer.columns;
      issues = older writer reader ++ planned_issues writer.columns reader.columns;
    })

  -- One row of `apply_actions`, from the target that the actions before have built.
  ok_or_missing : Option Value → Result Value
  ok_or_missing none = err (invalid_input "writer schema column is missing from decoded row")
  ok_or_missing (some value) = ok value

  apply_action : Map → EvolutionAction → Map → Result Map
  apply_action source (read id source_name target_name) target = do
    value ← ok_or_missing (get source_name source)
    ok (insert target_name value target)
  apply_action source (fill_default id target_name value) target =
      ok (insert target_name value target)
  apply_action source (fill_null id target_name) target = ok (insert target_name null target)
  apply_action source (drop id source_name) target = ok target

  apply_row : Map → List EvolutionAction → Map → Result Map
  apply_row source [] target = ok target
  apply_row source (action ∷ actions) target = do
    target' ← apply_action source action target
    apply_row source actions target'
