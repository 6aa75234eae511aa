-- ===== src/Prelude/Result.antt =====
-- The outcome of Python code that may raise. Which exception it is matters to no caller here.
use garnet_trader.Prelude.{Option, none, some, ◌≡◌, refl, ◌⊎◌, inl, inr}

pub data Result {ℓ} (A : Type ℓ) : Type ℓ where
  ok : A → Result A
  raised : Result A

-- `try: return e` with `except Exception: return None`
abbrev pub or_none {ℓ} : {A : Type ℓ} → Result A → Option A
or_none (ok a) = some a
or_none raised = none

pub Result-cases {ℓ} : {A : Type ℓ} (r : Result A) → (r ≡ raised) ⊎ ((a : A) × (r ≡ ok a))
Result-cases raised = inl refl
Result-cases (ok a) = inr (a, refl)
