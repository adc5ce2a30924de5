-- ===== src/Prelude/Outcome.antt =====
-- Outcomes of C code. `fault` is undefined behaviour that the code reaches: a NULL dereference,
-- a read of the wrong member of a union, a copy of negative size.
use mathlib.Core.Path.{◌≡◌, refl}
use mathlib.Core.Option.{Option, none, some}

pub data Run {ℓ} (A : Type ℓ) : Type ℓ where
  ok : A → Run A
  fault : Run A

-- What follows a run that ends; nothing follows a fault.
infixl 5 ◌>>=◌
abbrev pub ◌>>=◌ {ℓ κ} :
    {Before : Type ℓ} {After : Type κ} → Run Before → (Before → Run After) → Run After
fault >>= next = fault
ok x >>= next = next x

-- `*p`, where `none` stands for NULL.
abbrev pub deref {ℓ} : {A : Type ℓ} → Option A → Run A
deref none = fault
deref (some a) = ok a

-- The inversion of a sequence that ends.
pub >>=-eq-ok {ℓ κ} :
    {Before : Type ℓ} {After : Type κ} {y : After} (run : Run Before) (next : Before → Run After)
    → (run >>= next) ≡ ok y
    → (x : Before) × (run ≡ ok x) × (next x ≡ ok y)
>>=-eq-ok fault next h = cc
>>=-eq-ok (ok x) next h = (x, refl, h)
