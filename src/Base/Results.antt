-- ===== src/Base/Results.antt =====
-- A call that returns a value or raises. `E` is the module's type of exceptions.
use mathlib.Core.Path.{◌≡◌, refl, ap}
use mathlib.Core.Logic.{◌⊎◌, inl, inr}

pub data Result {ℓ κ} (E : Type ℓ) (A : Type κ) : Type (ℓ ⊔ κ) where
  ok : A → Result E A
  err : E → Result E A

infixl 5 ◌>>=◌ ◌>>◌
abbrev pub ◌>>=◌ {ℓ κ μ} :
    {E : Type ℓ} {A : Type κ} {B : Type μ} → Result E A → (A → Result E B) → Result E B
ok a >>= f = f a
err e >>= f = err e

abbrev pub ◌>>◌ {ℓ κ} : {E : Type ℓ} {B : Type κ} → Result E (Unit {0}) → Result E B → Result E B
m >> k = m >>= λ _. k

pub Result-cases {ℓ κ} :
    {E : Type ℓ} {A : Type κ} (r : Result E A) → ((a : A) × (r ≡ ok a)) ⊎ ((e : E) × (r ≡ err e))
Result-cases (ok a) = inl (a, refl)
Result-cases (err e) = inr (e, refl)

module _ {ℓ κ μ} {E : Type ℓ} {A : Type κ} {B : Type μ} where
  -- What a chain that returns went through.
  pub >>=-eq-ok :
      (first : Result E A) (rest : A → Result E B) {value : B}
      → (first >>= rest) ≡ ok value
      → (a : A) × (first ≡ ok a) × (rest a ≡ ok value)
  >>=-eq-ok (err e) rest returned = cc
  >>=-eq-ok (ok a) rest returned = (a, refl, returned)

module _ {ℓ κ} {E : Type ℓ} {A : Type κ} where
  abbrev or_else : A → Result E A → A
  or_else d (ok a) = a
  or_else d (err e) = d

  pub ok-injective : (a b : A) → ◌≡◌ {A = Result E A} (ok a) (ok b) → a ≡ b
  ok-injective a b h = ap (or_else a) h
