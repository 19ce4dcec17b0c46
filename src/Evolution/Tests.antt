-- ===== src/Evolution/Tests.antt =====
-- A small type of JSON values, a renamed and an added column, and the theorems at them.
use compact_core.Common.{
  ℕ, ◌≤◌, ◌≡◌, refl, List, [], ◌∷◌, All, true, false, none, some, ok, ◌↔◌, String, map, Option,
  if◌then◌else◌,
}
use package.text.Mathlib.Text.{◌==◌ as str_eq}
use compact_core.Schema.{u64, string, auto, supported_columns_v3}
use compact_core.Evolution.{
  Json, EvolvedColumn, SchemaRevision, EvolutionAction, EvolutionAssessment, is_compatible, assess,
  validate, apply_row, apply_action, ok_or_missing, physical_schema,
}
use compact_core.Evolution.Compatible.{Readable, assess-is_compatible_iff}
use compact_core.Evolution.Targets.{targets, column_name, assess-targets}

data Toy : Type 0 where
  nothing : Toy
  number : ℕ → Toy
  text : String → Toy

-- A map in which the last insertion of a key counts.
toy_get : String → List (String × Toy) → Option Toy
toy_get key [] = none
toy_get key ((k, v) ∷ entries) = if str_eq k key then some v else toy_get key entries

abbrev toy_json : Json
toy_json = record {
  Value = Toy;
  null = nothing;
  is_null = λ v. elim v [ nothing ↦ true | number n ↦ false | text s ↦ false ];
  is_boolean = λ v. false;
  is_string = λ v. elim v [ nothing ↦ false | number n ↦ false | text s ↦ true ];
  is_u64 = λ v. elim v [ nothing ↦ false | number n ↦ true | text s ↦ false ];
  Map = List (String × Toy);
  get = toy_get;
  insert = λ key value entries. (key, value) ∷ entries;
}

abbrev old_id : EvolvedColumn toy_json
old_id = record {
  stable_id = 1;
  name = "id";
  value_type = u64;
  codec = auto;
  nullable = false;
  aliases = [];
  default = none;
}

abbrev old_note : EvolvedColumn toy_json
old_note = record {
  stable_id = 2;
  name = "note";
  value_type = string;
  codec = auto;
  nullable = true;
  aliases = [];
  default = none;
}

abbrev new_id : EvolvedColumn toy_json
new_id = record old_id { name = "user_id"; aliases = "id" ∷ [] }

abbrev new_count : EvolvedColumn toy_json
new_count = record old_id { stable_id = 3; name = "count"; default = some (number 7) }

abbrev first : SchemaRevision toy_json
first = record { revision = 1; columns = old_id ∷ old_note ∷ [] }

abbrev second : SchemaRevision toy_json
second = record { revision = 2; columns = new_id ∷ new_count ∷ [] }

abbrev steps : List (EvolutionAction toy_json)
steps =
    EvolutionAction.read 1 "id" "user_id"
    ∷ EvolutionAction.fill_default 3 "count" (number 7)
    ∷ EvolutionAction.drop 2 "note"
    ∷ []

abbrev assessed : EvolutionAssessment toy_json
assessed = record { writer_revision = 1; reader_revision = 2; actions = steps; issues = [] }

second_reads_first : assess toy_json first second ≡ ok assessed
unfolding assess validate physical_schema supported_columns_v3
second_reads_first = refl

row_projected :
    apply_row toy_json (("id", number 5) ∷ ("note", text "x") ∷ []) steps []
    ≡ ok (("count", number 7) ∷ ("user_id", number 5) ∷ [])
unfolding apply_row apply_action ok_or_missing toy_get
row_projected = refl

assess-is_compatible_iff_example :
    (is_compatible toy_json assessed ≡ true)
    ↔ ((1 ≤ 2) × All (Readable toy_json (old_id ∷ old_note ∷ [])) (new_id ∷ new_count ∷ []))
assess-is_compatible_iff_example =
    assess-is_compatible_iff toy_json first second assessed second_reads_first

all_readable : is_compatible toy_json assessed ≡ true
unfolding is_compatible
all_readable = refl

assess-targets_example :
    targets toy_json steps ≡ map (column_name toy_json) (new_id ∷ new_count ∷ [])
assess-targets_example =
    assess-targets toy_json first second assessed second_reads_first all_readable
