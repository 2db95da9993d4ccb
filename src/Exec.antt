-- ===== src/Exec.antt =====
-- Actions that read and change a state and may raise. What was changed before a raise stays so.
use enterprise_support_agent.Base.{Result, ok, err}
use enterprise_support_agent.Domain.{Error}

abbrev pub Exec {ℓ κ} : Type ℓ → Type κ → Type (ℓ ⊔ κ)
Exec S A = S → Result Error A × S

module _ {ℓ κ} {S : Type ℓ} {A : Type κ} where
  abbrev pub pure : A → Exec S A
  pure a s = (ok a, s)

  abbrev pub raise : Error → Exec S A
  raise e s = (err e, s)

  abbrev pub lift : Result Error A → Exec S A
  lift r s = (r, s)

module _ {ℓ κ μ} {S : Type ℓ} {A : Type κ} {B : Type μ} where
  abbrev pub continue : Result Error A → (A → Exec S B) → Exec S B
  continue (ok a) f s = f a s
  continue (err e) f s = (err e, s)

  infixl 5 ◌>>=◌
  abbrev pub ◌>>=◌ : Exec S A → (A → Exec S B) → Exec S B
  ◌>>=◌ m f s = let (r, s') = m s in continue r f s'

module _ {ℓ κ} {S : Type ℓ} {A : Type κ} where
  -- `try: m`; the handler looks at the result.
  abbrev pub attempt : Exec S A → Exec S (Result Error A)
  attempt m s = let (r, s') = m s in (ok r, s')
