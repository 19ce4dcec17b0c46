-- ===== src/Schema/Tests.antt =====
-- The source's schemas, and the theorems at them.
use compact_core.Common.{◌≡◌, ◌≢◌, refl, List, [], ◌∷◌, All, ok, err, ◌↔◌, false, true}
use compact_core.Config.{validate}
use compact_core.Schema.{
  Schema, ColumnSchema, u64, string, bool, delta_varint_u64, dictionary, bitmap, supported_columns,
  supported_columns_v3, encode_config, duplicate_name,
}
use compact_core.Schema.Names.{GoodNames}
use compact_core.Schema.Supported.{
  IsCmp2, IsV3, supported_columns_iff, supported_columns_v3_iff, supported_columns→v3,
}
use compact_core.Schema.Configs.{supported_columns-valid}

abbrev ts : ColumnSchema
ts = record { name = "ts"; value_type = u64; codec = delta_varint_u64; nullable = false }

abbrev level : ColumnSchema
level = record { name = "level"; value_type = string; codec = dictionary; nullable = false }

abbrev active : ColumnSchema
active = record { name = "active"; value_type = bool; codec = bitmap; nullable = true }

abbrev log_schema : Schema
log_schema = record { columns = ts ∷ level ∷ [] }

abbrev v3_schema : Schema
v3_schema = record { columns = ts ∷ active ∷ [] }

log_schema_accepted : supported_columns log_schema ≡ ok (ts ∷ level ∷ [])
unfolding supported_columns
log_schema_accepted = refl

twice_named : supported_columns (record { columns = ts ∷ ts ∷ [] }) ≡ err duplicate_name
unfolding supported_columns
twice_named = refl

supported_columns_iff_example : (supported_columns log_schema ≡ ok (ts ∷ level ∷ [])) ↔ (
    (◌≡◌ {A = List ColumnSchema} (ts ∷ level ∷ []) (ts ∷ level ∷ []))
    × (◌≢◌ {A = List ColumnSchema} (ts ∷ level ∷ []) [])
    × GoodNames (ts ∷ level ∷ [])
    × All IsCmp2 (ts ∷ level ∷ []))
supported_columns_iff_example = supported_columns_iff log_schema (ts ∷ level ∷ [])

supported_columns_v3_iff_example : (supported_columns_v3 v3_schema ≡ ok (ts ∷ active ∷ [])) ↔ (
    (◌≡◌ {A = List ColumnSchema} (ts ∷ active ∷ []) (ts ∷ active ∷ []))
    × (◌≢◌ {A = List ColumnSchema} (ts ∷ active ∷ []) [])
    × GoodNames (ts ∷ active ∷ [])
    × All IsV3 (ts ∷ active ∷ []))
supported_columns_v3_iff_example = supported_columns_v3_iff v3_schema (ts ∷ active ∷ [])

supported_columns→v3_example : supported_columns_v3 log_schema ≡ ok (ts ∷ level ∷ [])
supported_columns→v3_example = supported_columns→v3 log_schema (ts ∷ level ∷ []) log_schema_accepted

supported_columns-valid_example : All (λ c. validate (encode_config c) ≡ ok tt) (ts ∷ level ∷ [])
supported_columns-valid_example =
    supported_columns-valid log_schema (ts ∷ level ∷ []) log_schema_accepted
