-- ===== src/Prelude/Fallible.antt =====
-- The result of a call that fails with an error of its own type, and the `?` operator on it.
use mathlib.Core.Path.{◌≡◌, refl}
use mathlib.Core.Logic.{◌⊎◌, inl, inr}
use native.Mathlib.Omega.{arith}

pub data Outcome {ℓ κ} (E : Type κ) (A : Type ℓ) : Type (ℓ ⊔ κ) where
  ok : A → Outcome E A
  err : E → Outcome E A

module _ {ℓ κ} {E : Type κ} {A : Type ℓ} where
  -- `call?`, and then the rest.
  abbrev pub and_then {μ} : {B : Type μ} → Outcome E A → (A → Outcome E B) → Outcome E B
  and_then (ok a) f = f a
  and_then (err e) f = err e

  pub Outcome-cases : (x : Outcome E A) → ((e : E) × (x ≡ err e)) ⊎ ((a : A) × (x ≡ ok a))
  Outcome-cases (ok a) = inr (a, refl)
  Outcome-cases (err e) = inl (e, refl)

  -- The result of a chain is there only if each call succeeded.
  pub and_then-ok {μ} :
      {B : Type μ} (x : Outcome E A) (f : A → Outcome E B) (b : B)
      → and_then x f ≡ ok b
      → (a : A) × (x ≡ ok a) × (f a ≡ ok b)
  and_then-ok (ok a) f b h = (a, refl, h)
  and_then-ok (err e) f b h = absurd (ground (arith, h))

  pub ok_injective : {x y : A} → ◌≡◌ {A = Outcome E A} (ok x) (ok y) → x ≡ y
  ok_injective h = cc

  -- A chain goes on after a call that succeeds.
  pub and_then_on_ok {μ} :
      {B : Type μ} (x : Outcome E A) (f : A → Outcome E B) (a : A) (r : Outcome E B)
      → x ≡ ok a
      → f a ≡ r
      → and_then x f ≡ r
  and_then_on_ok (ok b) f a r e h = let same : b ≡ a = ok_injective e in rw same h
  and_then_on_ok (err b) f a r e h = absurd (ground (arith, e))
