-- ===== src/Prelude/Outcomes.antt =====
-- What a call of the source comes to: a value, an error value, a run-time panic, or, for a loop on
-- fuel, a call that has not returned when the fuel is used up.
use mathlib.Core.Path.{◌≡◌, refl}

pub data Outcome {ℓ} (E : Type ℓ) (A : Type ℓ) : Type ℓ where
  ok : A → Outcome E A
  err : E → Outcome E A
  panic running : Outcome E A

infixl 5 ◌>>=◌
abbrev pub ◌>>=◌ {ℓ} : {E A B : Type ℓ} → Outcome E A → (A → Outcome E B) → Outcome E B
panic >>= rest = panic
running >>= rest = running
err x >>= rest = err x
ok u >>= rest = rest u

-- A chain that gives a value: the first call did, and the rest did from there.
pub first_call {ℓ} :
    {E A B : Type ℓ} (rest : A → Outcome E B) (call : Outcome E A) (v : B)
    → call >>= rest ≡ ok v
    → (u : A) × (rest u ≡ ok v) × (call ≡ ok u)
first_call rest (ok u) v e = (u, e, refl)
first_call rest (err x) v e = cc
first_call rest panic v e = cc
first_call rest running v e = cc

pub ok_eq {ℓ} : {E A : Type ℓ} {a b : A} (r : Outcome E A) → r ≡ ok a → r ≡ ok b → a ≡ b
ok_eq r h k = cc

-- A call that returns, by a value or an error.
abbrev pub Ends {ℓ} : {E A : Type ℓ} → Outcome E A → Type 0
Ends (ok a) = Unit
Ends (err e) = Unit
Ends panic = ⊥
Ends running = ⊥
