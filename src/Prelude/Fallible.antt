-- ===== src/Prelude/Fallible.antt =====
-- Chains of steps that may stop without a result.
use mathlib.Core.Path.{◌≡◌, ap, refl}
use mathlib.Core.Option.{Option, none, some}

infixl 5 ◌>>=◌
abbrev pub ◌>>=◌ {ℓ κ} : {A : Type ℓ} {B : Type κ} → Option A → (A → Option B) → Option B
none >>= f = none
some a >>= f = f a

module _ {ℓ κ} {A : Type ℓ} {B : Type κ} where
  pub >>=-some : {o : Option A} {a : A} (f : A → Option B) → o ≡ some a → (o >>= f) ≡ f a
  >>=-some f e = ap (λ o. o >>= f) e

  -- A chain that ends with a result had one at its first step.
  pub >>=-eq-some :
      (o : Option A) (f : A → Option B) {b : B}
      → (o >>= f) ≡ some b
      → (a : A) × (o ≡ some a) × (f a ≡ some b)
  >>=-eq-some none f e = absurd (cc)
  >>=-eq-some (some a) f e = (a, refl, e)

pub some_injective {ℓ} : {A : Type ℓ} {a b : A} → some a ≡ some b → a ≡ b
some_injective {a = a} e = ap (λ o. elim o [ none ↦ a | some c ↦ c ]) e
