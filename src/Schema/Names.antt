-- ===== src/Schema/Names.antt =====
-- Column names that the validation accepts.
use compact_core.Common.{String, ◌≡◌, ◌≢◌, refl, arith, List, [], ◌∷◌, ◌++◌, All, ok, ◌↔◌, false}
use compact_core.Schema.{ColumnSchema, validate_column_names, validate_names_loop, any_named}
use text.Mathlib.TextEquality.{eq_iff}

-- `name` is the name of no column of the list.
abbrev pub Unused : String → List ColumnSchema → Type 0
Unused name columns = All (λ (c : ColumnSchema). c.name ≢ name) columns

-- Each name is not empty, and is used by no column of `previous` and by no column before its own.
abbrev pub GoodNamesAfter : List ColumnSchema → List ColumnSchema → Type 0
GoodNamesAfter previous [] = Unit
GoodNamesAfter previous (c ∷ cs) =
    (c.name ≢ "") × Unused c.name previous × GoodNamesAfter (previous ++ c ∷ []) cs

abbrev pub GoodNames : List ColumnSchema → Type 0
GoodNames columns = GoodNamesAfter [] columns

any_named→Unused :
    (name : String) (cs : List ColumnSchema) → any_named name cs ≡ false → Unused name cs
unfolding any_named
any_named→Unused name [] h = tt
any_named→Unused name (c ∷ cs) h = ground (arith, eq_iff c.name name, any_named→Unused name cs)

Unused→any_named :
    (name : String) (cs : List ColumnSchema) → Unused name cs → any_named name cs ≡ false
unfolding any_named
Unused→any_named name [] h = refl
Unused→any_named name (c ∷ cs) h = ground (arith, eq_iff c.name name, Unused→any_named name cs h.1)

loop→GoodNames :
    (previous cs : List ColumnSchema)
    → validate_names_loop previous cs ≡ ok tt
    → GoodNamesAfter previous cs
unfolding validate_names_loop
loop→GoodNames previous [] h = tt
loop→GoodNames previous (c ∷ cs) h = ground (
  arith,
  eq_iff c.name "",
  any_named→Unused c.name previous,
  loop→GoodNames (previous ++ c ∷ []) cs,
)

GoodNames→loop :
    (previous cs : List ColumnSchema)
    → GoodNamesAfter previous cs
    → validate_names_loop previous cs ≡ ok tt
unfolding validate_names_loop
GoodNames→loop previous [] h = refl
GoodNames→loop previous (c ∷ cs) h = ground (
  arith,
  eq_iff c.name "",
  Unused→any_named c.name previous h.1,
  GoodNames→loop (previous ++ c ∷ []) cs h.2,
)

pub validate_column_names_iff :
    (columns : List ColumnSchema) → (validate_column_names columns ≡ ok tt) ↔ GoodNames columns
unfolding validate_column_names
validate_column_names_iff columns = (loop→GoodNames [] columns, GoodNames→loop [] columns)
