-- ===== src/Schema/Supported.antt =====
-- Which schemas the two formats accept.
use compact_core.Common.{
  ◌≡◌, ◌≢◌, refl, arith, List, [], ◌∷◌, All, Result, ok, ◌>>◌, ensure, not, ◌↔◌, Bool, true, false,
  CompactError, unsupported,
}
use compact_core.Schema.{
  Schema, ColumnSchema, SchemaValueType, bool, string, u64, SchemaCodec, auto, bitmap, bitpack,
  delta_bitpack, dictionary, delta_varint_u64, prefix, rle, stored, supported_columns,
  supported_columns_v3, cmp2_column, v3_column, each_column, is_empty, no_columns,
  validate_column_names, test_cmp2, test_v3,
}
use compact_core.Schema.Names.{GoodNames, validate_column_names_iff}

-- The columns of CMP2: a type, its codec, and whether it is nullable.
pub data Cmp2 : SchemaValueType → SchemaCodec → Bool → Type 0 where
  counters : Cmp2 u64 delta_varint_u64 false
  words : Cmp2 string dictionary false
  runs : Cmp2 string rle false

-- The types and codecs of CMP3, nullable or not.
pub data V3 : SchemaValueType → SchemaCodec → Type 0 where
  any_auto : (t : SchemaValueType) → V3 t auto
  any_stored : (t : SchemaValueType) → V3 t stored
  packed : V3 u64 bitpack
  packed_deltas : V3 u64 delta_bitpack
  deltas : V3 u64 delta_varint_u64
  words : V3 string dictionary
  prefixes : V3 string prefix
  runs : V3 string rle
  bits : V3 bool bitmap

abbrev pub IsCmp2 : ColumnSchema → Type 0
IsCmp2 c = Cmp2 c.value_type c.codec c.nullable

abbrev pub IsV3 : ColumnSchema → Type 0
IsV3 c = V3 c.value_type c.codec

Cmp2-sound :
    (t : SchemaValueType) (c : SchemaCodec) (n : Bool) → cmp2_column t c n ≡ true → Cmp2 t c n
unfolding cmp2_column
Cmp2-sound u64 delta_varint_u64 false h = Cmp2.counters
Cmp2-sound string dictionary false h = Cmp2.words
Cmp2-sound string rle false h = Cmp2.runs
Cmp2-sound t c n h = absurd (cc)

Cmp2-complete :
    {t : SchemaValueType} {c : SchemaCodec} {n : Bool} → Cmp2 t c n → cmp2_column t c n ≡ true
unfolding cmp2_column
Cmp2-complete Cmp2.counters = refl
Cmp2-complete Cmp2.words = refl
Cmp2-complete Cmp2.runs = refl

V3-sound : (t : SchemaValueType) (c : SchemaCodec) → v3_column t c ≡ true → V3 t c
unfolding v3_column
V3-sound t auto h = V3.any_auto t
V3-sound t stored h = V3.any_stored t
V3-sound u64 bitpack h = V3.packed
V3-sound u64 delta_bitpack h = V3.packed_deltas
V3-sound u64 delta_varint_u64 h = V3.deltas
V3-sound string dictionary h = V3.words
V3-sound string prefix h = V3.prefixes
V3-sound string rle h = V3.runs
V3-sound bool bitmap h = V3.bits
V3-sound t c h = absurd (cc)

V3-complete : {t : SchemaValueType} {c : SchemaCodec} → V3 t c → v3_column t c ≡ true
unfolding v3_column
V3-complete (V3.any_auto bool) = refl
V3-complete (V3.any_auto string) = refl
V3-complete (V3.any_auto u64) = refl
V3-complete (V3.any_stored bool) = refl
V3-complete (V3.any_stored string) = refl
V3-complete (V3.any_stored u64) = refl
V3-complete V3.packed = refl
V3-complete V3.packed_deltas = refl
V3-complete V3.deltas = refl
V3-complete V3.words = refl
V3-complete V3.prefixes = refl
V3-complete V3.runs = refl
V3-complete V3.bits = refl

-- The loop over the columns, for a test that decides `P`.
module _ (test : ColumnSchema → Bool) (P : ColumnSchema → Type 0)
    (decides : (c : ColumnSchema) → (test c ≡ true) ↔ P c) (failure : CompactError) where
  each_column-All : (cs : List ColumnSchema) → each_column test failure cs ≡ ok tt → All P cs
  unfolding each_column
  each_column-All [] h = tt
  each_column-All (c ∷ cs) h = ((decides c).0 (ground arith), each_column-All cs (ground arith))

  All-each_column : (cs : List ColumnSchema) → All P cs → each_column test failure cs ≡ ok tt
  unfolding each_column
  All-each_column [] h = refl
  All-each_column (c ∷ cs) h = rw ((decides c).1 h.0) (All-each_column cs h.1)

  is_empty-false : (cs : List ColumnSchema) → is_empty cs ≡ false → cs ≢ []
  unfolding is_empty
  is_empty-false [] h = cc
  is_empty-false (c ∷ cs) h = λ e. cc

  is_empty-cons : (cs : List ColumnSchema) → cs ≢ [] → is_empty cs ≡ false
  unfolding is_empty
  is_empty-cons [] h = absurd (h refl)
  is_empty-cons (c ∷ cs) h = refl

  checks : List ColumnSchema → Result (List ColumnSchema)
  checks cs = do
    ensure (not (is_empty cs)) no_columns
    validate_column_names cs
    each_column test failure cs
    ok cs

  checks_iff :
      (cs out : List ColumnSchema)
      → (checks cs ≡ ok out) ↔ ((out ≡ cs) × (cs ≢ []) × GoodNames cs × All P cs)
  checks_iff cs out = (there, back)
    where
      passed :
          checks cs ≡ ok out
          → (out ≡ cs)
            × (is_empty cs ≡ false)
            × (validate_column_names cs ≡ ok tt)
            × (each_column test failure cs ≡ ok tt)
      passed h = unfold checks in ground arith

      there : checks cs ≡ ok out → (out ≡ cs) × (cs ≢ []) × GoodNames cs × All P cs
      there h =
          let (same, full, names, fit) = passed h in
          (
            same,
            is_empty-false cs full,
            (validate_column_names_iff cs).0 names,
            each_column-All cs fit,
          )

      back : (out ≡ cs) × (cs ≢ []) × GoodNames cs × All P cs → checks cs ≡ ok out
      back (same, full, names, fit) =
          unfold checks in
          rw (
            same,
            is_empty-cons cs full,
            (validate_column_names_iff cs).1 names,
            All-each_column cs fit,
          )

-- CMP2 accepts a schema exactly when it has a column, its names are not empty and differ, and each
-- column has one of the three combinations of CMP2; the result is the columns in order.
pub supported_columns_iff :
    (schema : Schema) (out : List ColumnSchema)
    → (supported_columns schema ≡ ok out) ↔ (
        (out ≡ schema.columns)
        × (schema.columns ≢ [])
        × GoodNames schema.columns
        × All IsCmp2 schema.columns)
unfolding supported_columns checks
supported_columns_iff schema out =
    checks_iff test_cmp2 IsCmp2 (λ c. (Cmp2-sound c.value_type c.codec c.nullable, Cmp2-complete))
      (unsupported "schema column codec") schema.columns out

-- CMP3 accepts a schema exactly when it has a column, its names are not empty and differ, and each
-- column's codec is one for its type; nullable columns are accepted too.
pub supported_columns_v3_iff :
    (schema : Schema) (out : List ColumnSchema)
    → (supported_columns_v3 schema ≡ ok out) ↔ (
        (out ≡ schema.columns)
        × (schema.columns ≢ [])
        × GoodNames schema.columns
        × All IsV3 schema.columns)
unfolding supported_columns_v3 checks
supported_columns_v3_iff schema out =
    checks_iff test_v3 IsV3 (λ c. (V3-sound c.value_type c.codec, V3-complete))
      (unsupported "v0.3 schema column codec") schema.columns out

Cmp2→V3 : {t : SchemaValueType} {c : SchemaCodec} {n : Bool} → Cmp2 t c n → V3 t c
Cmp2→V3 Cmp2.counters = V3.deltas
Cmp2→V3 Cmp2.words = V3.words
Cmp2→V3 Cmp2.runs = V3.runs

All-Cmp2→V3 : (cs : List ColumnSchema) → All IsCmp2 cs → All IsV3 cs
All-Cmp2→V3 [] h = tt
All-Cmp2→V3 (c ∷ cs) h = (Cmp2→V3 h.0, All-Cmp2→V3 cs h.1)

-- Every schema that CMP2 accepts is accepted by CMP3, with the same columns.
pub supported_columns→v3 :
    (schema : Schema) (out : List ColumnSchema)
    → supported_columns schema ≡ ok out
    → supported_columns_v3 schema ≡ ok out
supported_columns→v3 schema out h =
    let (same, full, names, fit) = (supported_columns_iff schema out).0 h in
    (supported_columns_v3_iff schema out).1 (same, full, names, All-Cmp2→V3 schema.columns fit)
