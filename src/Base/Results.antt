-- ===== src/Base/Results.antt =====
-- Go's `(value, error)`: a value, or the text of the error.
use mathlib.Core.Path.{◌≡◌, refl}
use mathlib.Core.Logic.{◌⊎◌, inl, inr}
use ice_core.Base.Bytes.{Text}

pub data Result {ℓ} (A : Type ℓ) : Type ℓ where
  ok : A → Result A
  err : Text → Result A

pub Result-cases {ℓ} :
    {A : Type ℓ} (r : Result A) → ((a : A) × (r ≡ ok a)) ⊎ ((t : Text) × (r ≡ err t))
Result-cases (ok a) = inl (a, refl)
Result-cases (err t) = inr (t, refl)
