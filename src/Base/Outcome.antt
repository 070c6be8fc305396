-- ===== src/Base/Outcome.antt =====
-- What a call of the program ends in: a value, a failed assertion, an access outside an array, the
-- exception of a vector that is asked for more than it can hold, or an access through a pointer to
-- nothing or to an object that is gone.
use mathlib.Core.Path.{◌≡◌, refl}
use mathlib.Core.Logic.{◌⊎◌, inl, inr}
use mathlib.Core.Bool.{Bool, true, false}
use netframe.Base.Tests.{if◌then◌else◌}

pub data Error : Type 0 where
  assertion out_of_bounds length_error dangling aborted : Error

pub data Result {ℓ} (A : Type ℓ) : Type ℓ where
  err : Error → Result A
  ok : A → Result A

module _ {ℓ} {B : Type ℓ} where
  infixl 5 ◌>>=◌
  -- A failure ends the call: what stands after it does not run.
  abbrev pub ◌>>=◌ {κ} : {A : Type κ} → Result A → (A → Result B) → Result B
  err why >>= next = err why
  ok value >>= next = next value

  infixl 5 ◌>>◌
  abbrev pub ◌>>◌ : Result (Unit {0}) → Result B → Result B
  err why >> next = err why
  ok done >> next = next

-- The call goes on if the test holds, and fails in the way given if not.
abbrev pub guard : Bool → Error → Result (Unit {0})
guard test why = elim test [ true ↦ ok tt | false ↦ err why ]

-- `assert(b)`, which the build leaves in.
abbrev pub assert : Bool → Result (Unit {0})
assert test = guard test assertion

-- The call returns, and its value has the property.
abbrev pub Returns {ℓ} : {A : Type ℓ} → Result A → (A → Type 0) → Type 0
Returns (ok a) P = P a
Returns (err e) P = ⊥

-- A result that returns is a value.
pub Returns_value {ℓ} :
    {A : Type ℓ} (r : Result A) (P : A → Type 0) → Returns r P → (a : A) × (r ≡ ok a) × P a
Returns_value (ok a) P h = (a, refl, h)
Returns_value (err e) P h = absurd h

-- What a sequence that returns has gone through.
pub ok_of_bind {ℓ κ} :
    {A : Type ℓ} {B : Type κ} (first : Result A) (next : A → Result B) (b : B)
    → (first >>= next) ≡ ok b
    → (a : A) × (first ≡ ok a) × (next a ≡ ok b)
ok_of_bind (err why) next b e = cc
ok_of_bind (ok value) next b e = (value, refl, e)

pub ok_inj {ℓ} : {A : Type ℓ} {a b : A} → ◌≡◌ {A = Result A} (ok a) (ok b) → a ≡ b
ok_inj e = cc

pub ok_of_assert {ℓ} :
    {B : Type ℓ} (test : Bool) (next : Result B) (b : B)
    → (assert test >> next) ≡ ok b
    → next ≡ ok b
ok_of_assert true next b e = e
ok_of_assert false next b e = cc

-- A branch that returns is one of the two.
pub ok_of_if {ℓ} :
    {A : Type ℓ} (test : Bool) (yes' no' : Result A) (a : A)
    → (if test then yes' else no') ≡ ok a
    → (yes' ≡ ok a) ⊎ (no' ≡ ok a)
ok_of_if true yes' no' a e = inl e
ok_of_if false yes' no' a e = inr e
