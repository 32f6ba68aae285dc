-- ===== src/Prelude/Results.antt =====
-- What a function that may throw does: it returns a value, or throws an error with a message.
use Prim.Native.String.{String}
use mathlib.Core.Path.{◌≡◌, refl}
use mathlib.Core.Logic.{◌⊎◌, inl, inr}

pub data Outcome {ℓ} (A : Type ℓ) : Type ℓ where
  returned : A → Outcome A
  threw : String → Outcome A

pub Outcome-cases {ℓ} :
    {A : Type ℓ} (o : Outcome A)
    → ((a : A) × (o ≡ returned a)) ⊎ ((message : String) × (o ≡ threw message))
Outcome-cases (returned a) = inl (a, refl)
Outcome-cases (threw message) = inr (message, refl)
