-- ===== src/Outcome.antt =====
-- C code that may leave defined behaviour: `undefined` is an access outside of an object, a use
-- after free or a conversion the language leaves open. `out_of_fuel` is of the model alone.
use ps5_ezremote_server.Prelude.{◌≡◌, refl, Bool, true, false}

pub data Outcome {ℓ} (A : Type ℓ) : Type ℓ where
  returns : A → Outcome A
  undefined : Outcome A
  out_of_fuel : Outcome A

infixl 5 ◌>>=◌ ◌>>◌
abbrev pub ◌>>=◌ {ℓ κ} : {A : Type ℓ} {B : Type κ} → Outcome A → (A → Outcome B) → Outcome B
returns a >>= f = f a
undefined >>= f = undefined
out_of_fuel >>= f = out_of_fuel

abbrev pub ◌>>◌ {ℓ} : {B : Type ℓ} → Outcome (Unit {0}) → Outcome B → Outcome B
m >> k = m >>= λ _. k

-- Goes on only where the access is defined.
abbrev pub require : Bool → Outcome (Unit {0})
require true = returns tt
require false = undefined

pub bind-returns {ℓ κ} :
    {A : Type ℓ} {B : Type κ} (m : Outcome A) (f : A → Outcome B) {b : B}
    → (m >>= f) ≡ returns b
    → (a : A) × (m ≡ returns a) × (f a ≡ returns b)
bind-returns (returns a) f h = (a, refl, h)
bind-returns undefined f h = cc
bind-returns out_of_fuel f h = cc
