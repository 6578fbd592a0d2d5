-- ===== src/Base/Errors.antt =====
-- What a call that can fail comes to: a value, or one of the errors of its component. A `throw`,
-- or an early return of an error object, ends the steps that follow it.
use mathlib.Core.Path.{◌≡◌, refl}
use mathlib.Core.Logic.{◌⊎◌, inl, inr}
use mathlib.Core.Bool.{Bool, true, false}

pub data Outcome {κ ℓ} (E : Type κ) (A : Type ℓ) : Type (κ ⊔ ℓ) where
  err : E → Outcome E A
  ok : A → Outcome E A

module _ {ℓ κ μ} {E : Type ℓ} {A : Type κ} {B : Type μ} where
  infixl 5 ◌>>=◌
  abbrev pub ◌>>=◌ : Outcome E A → (A → Outcome E B) → Outcome E B
  err failure >>= next = err failure
  ok value >>= next = next value

module _ {ℓ κ} {E : Type ℓ} {A : Type κ} where
  infixl 5 ◌>>◌
  abbrev pub ◌>>◌ : Outcome E (Unit {0}) → Outcome E A → Outcome E A
  first >> second = first >>= λ _. second

  pub Outcome-cases : (o : Outcome E A) → ((a : A) × (o ≡ ok a)) ⊎ ((x : E) × (o ≡ err x))
  Outcome-cases (err x) = inr (x, refl)
  Outcome-cases (ok a) = inl (a, refl)

-- `if (!test) return error`.
abbrev pub unless_error {ℓ} : {E : Type ℓ} → Bool → E → Outcome E (Unit {0})
unless_error false failure = err failure
unless_error true failure = ok tt
