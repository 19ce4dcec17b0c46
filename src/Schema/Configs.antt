-- ===== src/Schema/Configs.antt =====
-- The configuration of a column.
use compact_core.Common.{◌≡◌, refl, List, [], ◌∷◌, All, ok, ◌↔◌, Bool, false}
use compact_core.Config.{validate}
use compact_core.Schema.{
  Schema, ColumnSchema, SchemaValueType, string, u64, SchemaCodec, dictionary, delta_varint_u64,
  rle, supported_columns, encode_config, config_of,
}
use compact_core.Schema.Supported.{Cmp2, IsCmp2, supported_columns_iff}

valid→Cmp2 :
    (t : SchemaValueType) (c : SchemaCodec) → validate (config_of t c) ≡ ok tt → Cmp2 t c false
unfolding config_of validate
valid→Cmp2 u64 delta_varint_u64 h = Cmp2.counters
valid→Cmp2 string dictionary h = Cmp2.words
valid→Cmp2 string rle h = Cmp2.runs
valid→Cmp2 t c h = absurd (cc)

Cmp2→valid :
    {t : SchemaValueType} {c : SchemaCodec} {n : Bool}
    → Cmp2 t c n
    → validate (config_of t c) ≡ ok tt
unfolding config_of validate
Cmp2→valid Cmp2.counters = refl
Cmp2→valid Cmp2.words = refl
Cmp2→valid Cmp2.runs = refl

-- `encode_config` gives a configuration that `validate` accepts exactly for the types and codecs of
-- CMP2.
pub encode_config_iff :
    (c : ColumnSchema) → (validate (encode_config c) ≡ ok tt) ↔ Cmp2 c.value_type c.codec false
unfolding encode_config
encode_config_iff c = (valid→Cmp2 c.value_type c.codec, Cmp2→valid)

All-valid :
    (cs : List ColumnSchema) → All IsCmp2 cs → All (λ c. validate (encode_config c) ≡ ok tt) cs
unfolding encode_config
All-valid [] h = tt
All-valid (c ∷ cs) h = (Cmp2→valid h.0, All-valid cs h.1)

-- Every column of a schema that `supported_columns` accepts has a configuration that `validate`
-- accepts.
pub supported_columns-valid :
    (schema : Schema) (out : List ColumnSchema)
    → supported_columns schema ≡ ok out
    → All (λ c. validate (encode_config c) ≡ ok tt) schema.columns
supported_columns-valid schema out h =
    let (same, full, names, fit) = (supported_columns_iff schema out).0 h in
    All-valid schema.columns fit
