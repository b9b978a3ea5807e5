-- ===== src/Basics/Outcome.antt =====
-- A value or the refusal that was thrown.
use mathlib.Core.Path.{◌≡◌, refl}
use mathlib.Core.Bool.{Bool, true, false}
use mathlib.Core.Logic.{◌⊎◌, inl, inr}

pub data Result {ℓ κ} (E : Type ℓ) (A : Type κ) : Type (ℓ ⊔ κ) where
  ok : A → Result E A
  err : E → Result E A

infixl 5 ◌>>=◌ ◌>>◌
abbrev pub ◌>>=◌ {ℓ κ μ} :
    {E : Type ℓ} {A : Type κ} {B : Type μ} → Result E A → (A → Result E B) → Result E B
ok a >>= f = f a
err e >>= f = err e

abbrev pub ◌>>◌ {ℓ κ} : {E : Type ℓ} {B : Type κ} → Result E (Unit {0}) → Result E B → Result E B
m >> k = m >>= λ _. k

-- `if (bad) throw e;`
abbrev pub throw_if {ℓ} : {E : Type ℓ} → Bool → E → Result E (Unit {0})
throw_if true e = err e
throw_if false e = ok tt

module _ {ℓ κ μ} {E : Type ℓ} {A : Type κ} {B : Type μ} where
  -- A chain that succeeds passed its first step.
  pub bind-eq-ok :
      (m : Result E A) (f : A → Result E B) {b : B}
      → (m >>= f) ≡ ok b
      → (a : A) × (m ≡ ok a) × (f a ≡ ok b)
  bind-eq-ok (ok a) f h = (a, refl, h)
  bind-eq-ok (err e) f h = absurd (cc)

module _ {ℓ μ} {E : Type ℓ} {B : Type μ} where
  -- A chain that succeeds passed the guard it starts with.
  pub throw_if-ok :
      (bad : Bool) (e : E) (k : Result E B) {b : B}
      → (throw_if bad e >> k) ≡ ok b
      → (bad ≡ false) × (k ≡ ok b)
  throw_if-ok true e k h = absurd (cc)
  throw_if-ok false e k h = (refl, h)

  pub step-ok :
      (m : Result E (Unit {0})) (k : Result E B) {b : B}
      → (m >> k) ≡ ok b
      → (m ≡ ok tt) × (k ≡ ok b)
  step-ok (ok u) k h = (refl, h)
  step-ok (err e) k h = absurd (cc)

module _ {ℓ} {E : Type ℓ} where
  pub throw_if-eq_ok : (bad : Bool) (e : E) → throw_if bad e ≡ ok tt → bad ≡ false
  throw_if-eq_ok true e h = absurd (cc)
  throw_if-eq_ok false e h = refl

pub Result-cases {ℓ κ} :
    {E : Type ℓ} {A : Type κ} (m : Result E A) → ((e : E) × (m ≡ err e)) ⊎ ((a : A) × (m ≡ ok a))
Result-cases (ok a) = inr (a, refl)
Result-cases (err e) = inl (e, refl)
