-- ===== src/Exec.antt =====
-- Python code that changes the database and may raise. What was committed before a raise stays
-- committed, so the store comes back beside the exception too.
use trace_pilot.Prelude.{String, ◌≡◌, refl, ◌⊎◌, inl, inr}
use trace_pilot.Json.{Value}
use trace_pilot.Evidence.Validate.{EvidenceError}

-- The exceptions that the modelled code raises or lets pass.
pub data Exception : Type 0 where
  -- `ToolNotAllowedError`, pydantic's `ValidationError`, `EvidenceValidationError`
  tool_not_allowed : String → Exception
  validation_error : Value → Exception
  evidence_error : EvidenceError → Exception
  -- `RuntimeError`s of the agent, and what an LLM provider raises
  no_report too_many_rounds provider_error : Exception
  -- `NameError`, `ValueError`
  name_error value_error : String → Exception
  -- what the database driver raises
  database_error : Exception

pub data Result {ℓ} (A : Type ℓ) : Type ℓ where
  returns : A → Result A
  raises : Exception → Result A

abbrev pub Exec {ℓ} : Type ℓ → Type ℓ → Type ℓ
Exec S A = S → Result A × S

module _ {ℓ} {S A B : Type ℓ} where
  abbrev pub continue : Result A → (A → Exec S B) → Exec S B
  continue (returns a) f s = f a s
  continue (raises e) f s = (raises e, s)

  infixl 10 ◌>>=◌
  abbrev pub ◌>>=◌ : Exec S A → (A → Exec S B) → Exec S B
  ◌>>=◌ m f s = let (r, s') = m s in continue r f s'

module _ {ℓ} {S A : Type ℓ} where
  abbrev pub pure : A → Exec S A
  pure a s = (returns a, s)

  abbrev pub raise : Exception → Exec S A
  raise e s = (raises e, s)

  abbrev pub lift : Result A → Exec S A
  lift r s = (r, s)

pub Result-cases {ℓ} :
    {A : Type ℓ} (r : Result A) → ((a : A) × (r ≡ returns a)) ⊎ ((e : Exception) × (r ≡ raises e))
Result-cases (returns a) = inl (a, refl)
Result-cases (raises e) = inr (e, refl)
