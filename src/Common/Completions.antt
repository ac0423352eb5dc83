-- ===== src/Common/Completions.antt =====
-- How a call ends: it returns, or an exception leaves it.
use mathlib.Core.Path.{◌≡◌, refl}
use mathlib.Core.Logic.{◌⊎◌, inl, inr}

pub data Completion {ℓ} (A : Type ℓ) : Type ℓ where
  returned : A → Completion A
  threw : Completion A

pub Completion-cases {ℓ} :
    {A : Type ℓ} → (r : Completion A) → ((a : A) × (r ≡ returned a)) ⊎ (r ≡ threw)
Completion-cases (returned a) = inl (a, refl)
Completion-cases threw = inr refl
