-- ===== src/Schema.antt =====
-- crates/compact-core/src/schema/mod.rs. `Schema::from_yaml` is serde's, and not modelled.
pub mod Names
pub mod Supported
pub mod Configs
mod Tests
use compact_core.Common.{
  String, List, [], ◌∷◌, ◌++◌, Bool, true, false, not, ◌||◌, Result, ok, err, ◌>>=◌, ◌>>◌, ensure,
  CompactError, invalid_input, unsupported,
}
use compact_core.Config.{EncodeConfig, raw_bytes, none, huffman, column_block}
use compact_core.Config
use text.Mathlib.Text.{◌==◌ as str_eq}

pub data SchemaValueType : Type 0 where
  bool string u64 : SchemaValueType

pub data SchemaCodec : Type 0 where
  auto bitmap bitpack delta_bitpack dictionary delta_varint_u64 prefix rle stored : SchemaCodec

pub record ColumnSchema : Type 0 where
  pub name : String
  pub value_type : SchemaValueType
  pub codec : SchemaCodec
  pub nullable : Bool

pub record Schema : Type 0 where
  pub columns : List ColumnSchema

abbrev pub no_columns : CompactError
no_columns = unsupported "schema must contain at least one column"

abbrev pub empty_name : CompactError
empty_name = invalid_input "schema column name must not be empty"

abbrev pub duplicate_name : CompactError
duplicate_name = invalid_input "schema column names must be unique"

-- `columns[..index].iter().any(|previous| previous.name == column.name)`
any_named : String → List ColumnSchema → Bool
any_named name [] = false
any_named name (c ∷ cs) = str_eq c.name name || any_named name cs

-- The loop at a column, with the columns before it.
validate_names_loop : List ColumnSchema → List ColumnSchema → Result (Unit {0})
validate_names_loop previous [] = ok tt
validate_names_loop previous (column ∷ rest) = do
  ensure (not (str_eq column.name "")) empty_name
  ensure (not (any_named column.name previous)) duplicate_name
  validate_names_loop (previous ++ column ∷ []) rest

pub validate_column_names : List ColumnSchema → Result (Unit {0})
unfolding validate_names_loop any_named
validate_column_names columns = validate_names_loop [] columns

-- The `match` of `supported_columns`.
cmp2_column : SchemaValueType → SchemaCodec → Bool → Bool
cmp2_column u64 delta_varint_u64 false = true
cmp2_column string dictionary false = true
cmp2_column string rle false = true
cmp2_column t c n = false

-- The `matches!` of `supported_columns_v3`.
v3_column : SchemaValueType → SchemaCodec → Bool
v3_column u64 auto = true
v3_column u64 bitpack = true
v3_column u64 delta_bitpack = true
v3_column u64 delta_varint_u64 = true
v3_column u64 stored = true
v3_column string auto = true
v3_column string dictionary = true
v3_column string prefix = true
v3_column string rle = true
v3_column string stored = true
v3_column bool auto = true
v3_column bool bitmap = true
v3_column bool stored = true
v3_column t c = false

-- `for column in &self.columns { if !test(column) { return Err(error) } }`
each_column : (ColumnSchema → Bool) → CompactError → List ColumnSchema → Result (Unit {0})
each_column test failure [] = ok tt
each_column test failure (c ∷ cs) = do ensure (test c) failure; each_column test failure cs

is_empty : List ColumnSchema → Bool
is_empty [] = true
is_empty (c ∷ cs) = false

abbrev test_cmp2 : ColumnSchema → Bool
test_cmp2 c = cmp2_column c.value_type c.codec c.nullable

abbrev test_v3 : ColumnSchema → Bool
test_v3 c = v3_column c.value_type c.codec

unfoldable pub supported_columns : Schema → Result (List ColumnSchema)
unfolding is_empty validate_column_names each_column cmp2_column
supported_columns schema = do
  ensure (not (is_empty schema.columns)) no_columns
  validate_column_names schema.columns
  each_column test_cmp2 (unsupported "schema column codec") schema.columns
  ok schema.columns

unfoldable pub supported_columns_v3 : Schema → Result (List ColumnSchema)
unfolding is_empty validate_column_names each_column v3_column
supported_columns_v3 schema = do
  ensure (not (is_empty schema.columns)) no_columns
  validate_column_names schema.columns
  each_column test_v3 (unsupported "v0.3 schema column codec") schema.columns
  ok schema.columns

config_of : SchemaValueType → SchemaCodec → EncodeConfig
config_of u64 delta_varint_u64 = record {
  value_type = Config.ValueType.u64;
  transform = Config.Transform.delta;
  codec = Config.Codec.delta_varint_u64;
}
config_of string rle = record {
  value_type = Config.ValueType.string;
  transform = none;
  codec = Config.Codec.rle;
}
config_of string dictionary = record {
  value_type = Config.ValueType.string;
  transform = none;
  codec = column_block;
}
config_of t c = record { value_type = raw_bytes; transform = none; codec = huffman }

unfoldable pub encode_config : ColumnSchema → EncodeConfig
unfolding config_of
encode_config c = config_of c.value_type c.codec
