-- ===== src/Base/Outcome.antt =====
-- What a C function comes to: a result, the error return -1, or undefined behaviour (a null
-- pointer followed, memory read or written out of its bounds).

use mathlib.Core.Bool.{Bool, true, false}
use mathlib.Core.Path.{◌≡◌, refl}

pub data Outcome {ℓ} (A : Type ℓ) : Type ℓ where
  ok : A → Outcome A
  failed : Outcome A
  fault : Outcome A

infixl 5 ◌>>=◌ ◌>>◌
abbrev pub ◌>>=◌ {ℓ κ} : {A : Type ℓ} {B : Type κ} → Outcome A → (A → Outcome B) → Outcome B
ok a >>= f = f a
failed >>= f = failed
fault >>= f = fault

abbrev pub ◌>>◌ {ℓ} : {B : Type ℓ} → Outcome (Unit {0}) → Outcome B → Outcome B
m >> k = m >>= λ _. k

-- `if(!b) return -1;`
abbrev pub guard_failed : Bool → Outcome (Unit {0})
guard_failed true = ok tt
guard_failed false = failed

-- An access that is out of bounds unless `b`.
abbrev pub guard_fault : Bool → Outcome (Unit {0})
guard_fault true = ok tt
guard_fault false = fault

-- A caller that ignores the error return keeps the value that it had.
abbrev pub or_keep {ℓ} : {A : Type ℓ} → A → Outcome A → Outcome A
or_keep old (ok a) = ok a
or_keep old failed = ok old
or_keep old fault = fault

pub ok_injective {ℓ} : {A : Type ℓ} {a b : A} → ok a ≡ ok b → a ≡ b
ok_injective e = cc

-- Where a result of two steps comes from.
pub both_ok {ℓ κ} :
    {A : Type ℓ} {B : Type κ} (o : Outcome A) (f : A → Outcome B) (b : B)
    → (o >>= f) ≡ ok b
    → (a : A) × (o ≡ ok a) × (f a ≡ ok b)
both_ok (ok a) f b e = (a, refl, e)
both_ok failed f b e = cc
both_ok fault f b e = cc
