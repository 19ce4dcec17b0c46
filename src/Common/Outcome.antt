-- ===== src/Common/Outcome.antt =====
-- crates/compact-core/src/lib.rs: `CompactError` and `Result`.
use Prim.Native.String.{String}
use mathlib.Core.Path.{◌≡◌, refl}
use mathlib.Core.Bool.{Bool, true, false}
use mathlib.Core.Logic.{◌⊎◌, inl, inr}

-- An i/o error is kept as its displayed text.
pub data CompactError : Type 0 where
  invalid_input : String → CompactError
  unsupported : String → CompactError
  io : String → CompactError

pub data Result {ℓ} (A : Type ℓ) : Type ℓ where
  ok : A → Result A
  err : CompactError → Result A

abbrev pub IsOk {ℓ} : {A : Type ℓ} → Result A → Type 0
IsOk (ok a) = Unit
IsOk (err e) = ⊥

-- The `?` operator, in `do` blocks.
infixl 5 ◌>>=◌
abbrev pub ◌>>=◌ {ℓ κ} : {A : Type ℓ} {B : Type κ} → Result A → (A → Result B) → Result B
◌>>=◌ (err failure) next = err failure
◌>>=◌ (ok value) next = next value

-- `if !test { return Err(error) }`
abbrev pub ensure : Bool → CompactError → Result (Unit {0})
ensure false failure = err failure
ensure true failure = ok tt

infixl 5 ◌>>◌
abbrev pub ◌>>◌ {ℓ} : {B : Type ℓ} → Result (Unit {0}) → Result B → Result B
first >> rest = ◌>>=◌ first (λ done. rest)

pub Result-cases {ℓ} :
    {A : Type ℓ} (r : Result A) → ((a : A) × (r ≡ ok a)) ⊎ ((e : CompactError) × (r ≡ err e))
Result-cases (ok a) = inl (a, refl)
Result-cases (err e) = inr (e, refl)

-- A `?` that did not return early had a value to go on with.
module _ {ℓ κ} {A : Type ℓ} {B : Type κ} (next : A → Result B) where
  pub >>=-eq-ok :
      (r : Result A) {final : B}
      → (r >>= next) ≡ ok final
      → (value : A) × (r ≡ ok value) × (next value ≡ ok final)
  >>=-eq-ok (err failure) e = cc
  >>=-eq-ok (ok value) e = (value, refl, e)

-- A test that did not return early holds.
pub ensure-eq-ok {ℓ} :
    {A : Type ℓ} (test : Bool) (failure : CompactError) {rest : Result A} {final : A}
    → (ensure test failure >> rest) ≡ ok final
    → (test ≡ true) × (rest ≡ ok final)
ensure-eq-ok false failure e = cc
ensure-eq-ok true failure e = (refl, e)

-- The value of a result, where two results are the same.
abbrev pub value_or {ℓ} : {A : Type ℓ} → A → Result A → A
value_or other (ok value) = value
value_or other (err failure) = other
