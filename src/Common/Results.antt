-- ===== src/Common/Results.antt =====
-- What C++ code that can throw returns: a value, or the exception.
use mathlib.Core.Path.{◌≡◌, refl}
use mathlib.Core.Logic.{◌⊎◌, inl, inr}

-- `past_end` is the `runtime_error` of `InputBuffer::CheckBounds`. `length_error` is what the
-- constructors and `resize` of the standard containers throw at an impossible size.
pub data Fault : Type 0 where
  past_end length_error : Fault

pub data Outcome {ℓ} (A : Type ℓ) : Type ℓ where
  ok : A → Outcome A
  throws : Fault → Outcome A

pub Outcome-cases {ℓ} :
    {A : Type ℓ} (o : Outcome A) → ((e : Fault) × (o ≡ throws e)) ⊎ ((a : A) × (o ≡ ok a))
Outcome-cases (ok a) = inr (a, refl)
Outcome-cases (throws e) = inl (e, refl)
