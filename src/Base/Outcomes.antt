-- ===== src/Base/Outcomes.antt =====
-- The outcome of Python code that may raise.
use mathlib.Core.Path.{◌≡◌, refl}
use mathlib.Core.Logic.{◌⊎◌, inl, inr}
use mathlib.Core.Bool.{Bool, true, false}

pub data Outcome {ℓ} (E A : Type ℓ) : Type ℓ where
  err : E → Outcome E A
  ok : A → Outcome E A

pub Outcome-cases {ℓ} :
    {E A : Type ℓ} (m : Outcome E A) → ((e : E) × (m ≡ err e)) ⊎ ((a : A) × (m ≡ ok a))
Outcome-cases (err e) = inl (e, refl)
Outcome-cases (ok a) = inr (a, refl)

pub ok_injective : {E A : Type 0} {a b : A} → ◌≡◌ {A = Outcome E A} (ok a) (ok b) → a ≡ b
ok_injective h = cc

-- `if not test: raise e`.
abbrev pub require {ℓ} : {E : Type ℓ} → Bool → E → Outcome E (Unit {ℓ})
require false raised = err raised
require true raised = ok tt

infixl 5 ◌>>=◌ ◌>>◌
abbrev pub ◌>>=◌ {ℓ} : {E A B : Type ℓ} → Outcome E A → (A → Outcome E B) → Outcome E B
err raised >>= next = err raised
ok value >>= next = next value

-- What is left of two steps of which both went through.
pub >>=-eq-ok {ℓ} :
    {E A B : Type ℓ} (first : Outcome E A) (next : A → Outcome E B) {result : B}
    → (first >>= next) ≡ ok result
    → (value : A) × (first ≡ ok value) × (next value ≡ ok result)
>>=-eq-ok (err raised) next h = cc
>>=-eq-ok (ok value) next h = (value, refl, h)

abbrev pub ◌>>◌ {ℓ} : {E A B : Type ℓ} → Outcome E A → Outcome E B → Outcome E B
first >> next = first >>= λ _. next
