-- ===== src/Errs/Outcome.antt =====
-- What a method of the source returns beside its state: a value, or an error.
use cofound.Prelude.{String, ◌≡◌, refl, ◌⊎◌, inl, inr}
use cofound.Errs.Types.{Fault, GoError, leaf, wrapped}

pub data Outcome {ℓ} (A : Type ℓ) : Type ℓ where
  ok : A → Outcome A
  err : GoError → Outcome A

pub Outcome-cases {ℓ} :
    {A : Type ℓ} (o : Outcome A) → ((a : A) × (o ≡ ok a)) ⊎ ((e : GoError) × (o ≡ err e))
Outcome-cases (ok a) = inl (a, refl)
Outcome-cases (err e) = inr (e, refl)

-- `fmt.Errorf("…: %w", err)` of a driver's error.
abbrev pub db_error : String → GoError
db_error s = wrapped s (leaf (Fault.driver s))
