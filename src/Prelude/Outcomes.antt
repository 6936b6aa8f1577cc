-- ===== src/Prelude/Outcomes.antt =====
-- What a run of a C function comes to: it returns, an `assert` fails, its behaviour is undefined (a
-- read through a freed or indeterminate pointer, say), or it never ends.
use mathlib.Core.Path.{◌≡◌, refl}
use mathlib.Core.Bool.{Bool, true, false}

pub data Outcome {ℓ} (A : Type ℓ) : Type ℓ where
  returns : A → Outcome A
  assert_fails : Outcome A
  undefined : Outcome A
  diverges : Outcome A

infixl 5 ◌>>=◌ ◌>>◌
abbrev pub ◌>>=◌ {ℓ κ} : {A : Type ℓ} {B : Type κ} → Outcome A → (A → Outcome B) → Outcome B
returns a >>= f = f a
assert_fails >>= f = assert_fails
undefined >>= f = undefined
diverges >>= f = diverges

abbrev pub ◌>>◌ {ℓ} : {B : Type ℓ} → Outcome (Unit {0}) → Outcome B → Outcome B
m >> k = m >>= λ _. k

-- `assert(b)`
abbrev pub assert : Bool → Outcome (Unit {0})
assert true = returns tt
assert false = assert_fails

-- Inversion of a call that returns.
pub >>=-eq-returns {ℓ κ} :
    {A : Type ℓ} {B : Type κ} (m : Outcome A) (f : A → Outcome B) {b : B}
    → (m >>= f) ≡ returns b
    → (a : A) × (m ≡ returns a) × (f a ≡ returns b)
>>=-eq-returns (returns a) f h = (a, refl, h)
>>=-eq-returns assert_fails f h = cc
>>=-eq-returns undefined f h = cc
>>=-eq-returns diverges f h = cc

pub assert-eq-returns : (b : Bool) {u : Unit {0}} → assert b ≡ returns u → b ≡ true
assert-eq-returns true h = refl
assert-eq-returns false h = cc
