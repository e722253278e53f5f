-- ===== src/Prelude/Results.antt =====
-- The results of functions that may fail.
use mathlib.Core.Path.{◌≡◌, refl}
use mathlib.Core.Logic.{◌⊎◌, inl, inr}

-- What a Go function that returns `(value, error)` gives: the value, or an error whose text the
-- callers do not look at.
pub data Outcome {ℓ} (A : Type ℓ) : Type ℓ where
  ok : A → Outcome A
  failed : Outcome A

pub on_outcome {ℓ} :
    {A : Type ℓ} {B : Type 0} (P : B → Type 0) (o : Outcome A) {x : B} {y : A → B}
    → P x
    → ((a : A) → P (y a))
    → P (elim o [ failed ↦ x | ok a ↦ y a ])
on_outcome P failed px py = px
on_outcome P (ok a) px py = py a

pub Outcome-cases {ℓ} : {A : Type ℓ} (o : Outcome A) → (o ≡ failed) ⊎ ((a : A) × (o ≡ ok a))
Outcome-cases failed = inl refl
Outcome-cases (ok a) = inr (a, refl)
