-- ===== src/Common/Exec.antt =====
-- Methods that read and change a state and return `(value, error)`: state passing with a result.
use mathlib.Core.Path.{◌≡◌}
use mathlib.Core.Logic.{inl, inr}
use native.Mathlib.Omega.{arith}
use provider_crossplane_akui.Common.Fallible.{Result, ok, err, Result-cases}

-- With errors of type `E`, on a state of type `W`.
abbrev pub Exec : Type 0 → Type 0 → Type 0 → Type 0
Exec E W A = W → Result E A × W

module _ {E W : Type 0} where
  abbrev pub pure : {A : Type 0} → A → Exec E W A
  pure a w = (ok a, w)

  abbrev pub raise : {A : Type 0} → E → Exec E W A
  raise e w = (err e, w)

  abbrev pub lift : {A : Type 0} → Result E A → Exec E W A
  lift r w = (r, w)

  infixl 5 ◌>>=◌ ◌>>◌
  abbrev pub ◌>>=◌ : {A B : Type 0} → Exec E W A → (A → Exec E W B) → Exec E W B
  ◌>>=◌ m f w = let (r, w') = m w in elim r [ ok a ↦ f a w' | err e ↦ (err e, w') ]

  abbrev pub ◌>>◌ : {B : Type 0} → Exec E W (Unit {0}) → Exec E W B → Exec E W B
  m >> k = m >>= λ _. k

  -- `err != nil` handled by the caller, which sees the value or the error.
  abbrev pub attempt : {A : Type 0} → Exec E W A → Exec E W (Result E A)
  attempt m w = let (r, w') = m w in (ok r, w')

-- A method that succeeds has succeeded at its first step.
pub >>=-eq-ok :
    {E W A B : Type 0} (m : Exec E W A) (f : A → Exec E W B) (w : W) {b : B}
    → ((m >>= f) w).0 ≡ ok b
    → (a : A) × ((m w).0 ≡ ok a) × ((f a (m w).1).0 ≡ ok b)
>>=-eq-ok m f w h = elim (Result-cases (m w).0) [
  | inl (a, e) ↦ (a, e, ground (arith, h, e))
  | inr (e, e') ↦ absurd (ground (arith, h, e'))
]
