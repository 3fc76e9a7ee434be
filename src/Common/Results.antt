-- ===== src/Common/Results.antt =====
-- Go's `(T, error)`: a value or an error. Wrapped errors keep their sentinel only, which is what
-- `errors.Is` reads; message texts are not modelled.
use mathlib.Core.Path.{◌≡◌, refl}
use mathlib.Core.Logic.{◌⊎◌, inl, inr}
use mathlib.Core.Bool.{Bool, true, false}
use mathlib.Core.Option.{Option, none, some}

pub data Outcome {ℓ κ} (E : Type ℓ) (A : Type κ) : Type (ℓ ⊔ κ) where
  ok : A → Outcome E A
  err : E → Outcome E A

module _ {ℓ κ} {E : Type ℓ} {A : Type κ} where
  pub Outcome-cases : (r : Outcome E A) → ((a : A) × (r ≡ ok a)) ⊎ ((e : E) × (r ≡ err e))
  Outcome-cases (ok a) = inl (a, refl)
  Outcome-cases (err e) = inr (e, refl)

  abbrev pub or_fail : Option A → E → Outcome E A
  or_fail none e = err e
  or_fail (some a) e = ok a

  -- The value of a call that succeeded, or a default.
  abbrev pub value_or : A → Outcome E A → A
  value_or d (ok a) = a
  value_or d (err e) = d

module _ {ℓ κ μ} {E : Type ℓ} {A : Type κ} {B : Type μ} where
  -- `x, err := m; if err != nil { return err }`
  infixl 5 ◌>>=◌
  abbrev pub ◌>>=◌ : Outcome E A → (A → Outcome E B) → Outcome E B
  err failure >>= next = err failure
  ok value >>= next = next value

  -- A chain that succeeds has a first step that succeeds.
  pub >>=-ok :
      (first : Outcome E A) (next : A → Outcome E B) {end : B}
      → (first >>= next) ≡ ok end
      → (middle : A) × (first ≡ ok middle) × (next middle ≡ ok end)
  >>=-ok (err failure) next reaches = cc
  >>=-ok (ok middle) next reaches = (middle, refl, reaches)

-- `if !condition { return error }`
abbrev pub require {ℓ} : {E : Type ℓ} → Bool → E → Outcome E (Unit {0})
require false failure = err failure
require true failure = ok tt
