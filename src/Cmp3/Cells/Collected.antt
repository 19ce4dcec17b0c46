-- ===== src/Cmp3/Cells/Collected.antt =====
-- What the loop over the rows has collected, and how the decoder puts it together again.
use compact_core.Common.{
  ℕ, zero, suc, ◌+◌, ◌≡◌, ◌≢◌, refl, sym, ap, ◌∙◌, arith, ◌≤◌, List, [], ◌∷◌, ◌++◌, Bool, true,
  false, Option, none, some, leb, ◌==◌, ◌||◌, if◌then◌else◌, ==_iff, length, length-append,
  replicate, map, All, ok, CompactError, >>=-eq-ok, take-append_exact, drop-append_exact,
}
use compact_core.Primitives.Bitmap
use compact_core.Primitives.Bitmap.{byte_count}
use compact_core.Primitives.Bitmap.RoundTrip.{decode-encode, length-encode}
use compact_core.Schema.{ColumnSchema}
use compact_core.Cmp3.Cells.{
  Cell, Rows, missing, null, other, boolean, unsigned, text, Refusals, refuse, absent, cell_value,
  push, collect, restore, count_present, count_absent, validity_bytes, read_validity,
}

pub count_absent-present :
    (validity : List Bool) → count_absent validity + count_present validity ≡ length validity
unfolding count_absent count_present
count_absent-present [] = refl
count_absent-present (true ∷ validity) = omega (arith, count_absent-present validity)
count_absent-present (false ∷ validity) = omega (arith, count_absent-present validity)

count_present-replicate : (n : ℕ) → count_present (replicate n true) ≡ n
unfolding count_present
count_present-replicate zero = refl
count_present-replicate (suc n) = ap suc (count_present-replicate n)

-- The values in the cells, without the nulls.
abbrev pub onto {ℓ} : {A : Type ℓ} → Option A → List A → List A
onto none values = values
onto (some value) values = value ∷ values

abbrev pub present_of {ℓ} : {A : Type ℓ} → (Cell → Option A) → List Cell → List A
present_of pick [] = []
present_of pick (cell ∷ cells) = onto (pick cell) (present_of pick cells)

module _ {A : Type 0} (pick : Cell → Option A) (refusals : Refusals) (failure : CompactError) where
  -- The validity and the values of rows that were accepted.
  pub record Collected (nullable : Bool) (cells : List Cell) (validity : List Bool)
      (values : List A) : Type 0 where
    pub rows : length validity ≡ length cells
    pub present : count_present validity ≡ length values
    pub restored : restore failure validity values ≡ ok (map pick cells, [])
    pub picked : values ≡ present_of pick cells
    pub all_present : nullable ≡ false → validity ≡ replicate (length validity) true

  absent-value :
      (nullable : Bool) (cell : Cell) (found value : Option A)
      → absent refusals nullable cell found ≡ ok value
      → found ≡ value
  absent-value nullable cell none value e =
      let (done, refused, e1) = >>=-eq-ok _ (refuse refusals nullable cell) e in cc
  absent-value nullable cell (some a) value e = cc

  refuse-required : (cell : Cell) → refuse refusals false cell ≢ ok tt
  refuse-required missing e = cc
  refuse-required null e = cc
  refuse-required other e = cc
  refuse-required (boolean b) e = cc
  refuse-required (unsigned n) e = cc
  refuse-required (text t) e = cc

  absent-required :
      (nullable : Bool) (cell : Cell) (found value : Option A)
      → absent refusals nullable cell found ≡ ok value
      → nullable ≡ false
      → (a : A) × (value ≡ some a)
  absent-required nullable cell none value e required =
      let (done, refused, e1) = >>=-eq-ok _ (refuse refusals nullable cell) e in
      absurd (refuse-required cell (rw (required) at refused))
  absent-required nullable cell (some a) value e required = (a, cc)

  push-Collected :
      (nullable : Bool) (cell : Cell) (cells : List Cell) (value : Option A)
      (rest : List Bool × List A)
      → pick cell ≡ value
      → (nullable ≡ false → (a : A) × (value ≡ some a))
      → Collected nullable cells rest.0 rest.1
      → Collected nullable (cell ∷ cells) (push value rest).0 (push value rest).1
  unfolding restore count_present
  push-Collected nullable cell cells none (validity, values) found some_required known = record {
    rows = ap suc known.rows;
    present = known.present;
    restored = rw (known.restored, found) refl;
    picked = rw (found) known.picked;
    all_present = λ e. let (a, same) = some_required e in absurd cc;
  }
  push-Collected nullable cell cells (some a) (validity, values) found some_required known =
      record {
        rows = ap suc known.rows;
        present = ap suc known.present;
        restored = rw (known.restored, found) refl;
        picked = rw (found) (ap (λ (t : List A). a ∷ t) known.picked);
        all_present = λ e. ap (λ (t : List Bool). true ∷ t) (known.all_present e);
      }

  pub collect-Collected :
      (nullable : Bool) (cells : List Cell) (r : List Bool × List A)
      → collect pick refusals nullable cells ≡ ok r
      → Collected nullable cells r.0 r.1
  unfolding collect restore count_present
  collect-Collected nullable [] r e =
      let same : ([], []) ≡ r = cc in
      rw (sym same) (record {
        rows = refl;
        present = refl;
        restored = refl;
        picked = refl;
        all_present = λ h. refl;
      })
  collect-Collected nullable (cell ∷ cells) r e =
      let (value, taken, e1) = >>=-eq-ok _ (cell_value pick refusals nullable cell) e in
      let (rest, collected, e2) = >>=-eq-ok _ (collect pick refusals nullable cells) e1 in
      let same : push value rest ≡ r = cc in
      rw (sym same) (
        push-Collected nullable cell cells value rest
          (absent-value nullable cell (pick cell) value taken)
          (absent-required nullable cell (pick cell) value taken)
          (collect-Collected nullable cells rest collected))

-- A cell that the loop takes: a value of the column's type, or a null where the column admits it.
pub data Admissible {A : Type 0} (pick : Cell → Option A) (nullable : Bool) (cell : Cell)
    : Type 0 where
  value_in : (a : A) → pick cell ≡ some a → Admissible pick nullable cell
  null_in : nullable ≡ true → cell ≡ null → Admissible pick nullable cell
  missing_in : nullable ≡ true → cell ≡ missing → Admissible pick nullable cell

module _ {A : Type 0} (pick : Cell → Option A) (refusals : Refusals) where
  absent-null :
      (found : Option A) → (value : Option A) × (absent refusals true null found ≡ ok value)
  absent-null none = (none, refl)
  absent-null (some a) = (some a, refl)

  absent-missing :
      (found : Option A) → (value : Option A) × (absent refusals true missing found ≡ ok value)
  absent-missing none = (none, refl)
  absent-missing (some a) = (some a, refl)

  cell_value-Admissible :
      (nullable : Bool) (cell : Cell)
      → Admissible pick nullable cell
      → (value : Option A) × (cell_value pick refusals nullable cell ≡ ok value)
  cell_value-Admissible nullable cell (value_in a e) = (some a, rw (e) refl)
  cell_value-Admissible nullable cell (null_in e same) = rw (e, same) (absent-null (pick null))
  cell_value-Admissible nullable cell (missing_in e same) =
      rw (e, same) (absent-missing (pick missing))

  pub collect-Admissible :
      (nullable : Bool) (cells : List Cell)
      → All (Admissible pick nullable) cells
      → (r : List Bool × List A) × (collect pick refusals nullable cells ≡ ok r)
  unfolding collect
  collect-Admissible nullable [] admissible = (([], []), refl)
  collect-Admissible nullable (cell ∷ cells) (first, others) =
      let (value, taken) = cell_value-Admissible nullable cell first in
      let (rest, collected) = collect-Admissible nullable cells others in
      (push value rest, rw (taken, collected) refl)

-- The validity that was written is read back.
pub read_validity-validity_bytes :
    (truncated : CompactError) (nullable : Bool) (validity : List Bool) (back : List ℕ)
    → (nullable ≡ false → validity ≡ replicate (length validity) true)
    → read_validity truncated nullable
        (length validity)
        (count_present validity)
        (validity_bytes nullable validity ++ back)
      ≡ ok (validity, back)
unfolding read_validity
read_validity-validity_bytes truncated true validity back required =
    let bits = Bitmap.encode validity in
    let size : length bits ≡ byte_count (length validity) = length-encode validity in
    let room : leb (byte_count (length validity)) (length (bits ++ back)) ≡ true =
      ground (arith, size, length-append bits back) in
    let agree : (count_present validity == count_present validity) ≡ true = (==_iff _ _).1 refl in
    rw
      (
        room,
        take-append_exact (byte_count (length validity)) bits back size,
        decode-encode validity,
        agree,
        drop-append_exact (byte_count (length validity)) bits back size,
      )
      refl
read_validity-validity_bytes truncated false validity back required =
    let full = required refl in
    let count : count_present (replicate (length validity) true) ≡ count_present validity =
      ap count_present (sym full) in
    let agree : (count_present (replicate (length validity) true) == count_present validity)
        ≡ true =
      (==_iff _ _).1 count in
    let room : leb 0 (length back) ≡ true = ground arith in
    rw (room, agree) (ap (λ (t : List Bool). ok (t, back)) (sym full))

pub length-validity_bytes :
    (nullable : Bool) (validity : List Bool)
    → length (validity_bytes nullable validity)
      ≡ (if nullable then byte_count (length validity) else 0)
length-validity_bytes true validity = length-encode validity
length-validity_bytes false validity = refl

-- A column without nulls passes the test on its null count.
pub required_count :
    (nullable : Bool) (validity : List Bool)
    → (nullable ≡ false → validity ≡ replicate (length validity) true)
    → (nullable || count_absent validity == 0) ≡ true
required_count true validity required = refl
required_count false validity required =
    let full = ap count_present (required refl) ∙ count_present-replicate (length validity) in
    ground (arith, full, count_absent-present validity)

pub front_most : (nullable : Bool) (n : ℕ) → (if nullable then byte_count n else 0) ≤ byte_count n
front_most true n = omega arith
front_most false n = omega arith

-- The cells of a column in the rows, in the order of the rows.
abbrev pub cells_of : (r : Rows) → ColumnSchema → List r.Row → List Cell
cells_of r column rows = map (λ (row : r.Row). r.get row column.name) rows
