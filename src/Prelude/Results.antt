-- ===== src/Prelude/Results.antt =====
-- Errors as values: the pair `(value, error)` that a Go function returns.
use mathlib.Core.Path.{◌≡◌, refl}
use mathlib.Core.Bool.{Bool, true, false}
use mathlib.Core.Option.{Option, none, some}

pub data Result {ℓ κ} (E : Type ℓ) (A : Type κ) : Type (ℓ ⊔ κ) where
  err : E → Result E A
  ok : A → Result E A

module _ {ℓ} {E : Type ℓ} where
  abbrev pub or_fail {κ} : {A : Type κ} → Option A → E → Result E A
  or_fail (some value) failure = ok value
  or_fail none failure = err failure

  abbrev pub guard : Bool → E → Result E (Unit {0})
  guard holds failure = elim holds [ true ↦ ok tt | false ↦ err failure ]

  infixl 5 ◌>>=◌ ◌>>◌
  abbrev pub ◌>>=◌ {κ μ} : {A : Type κ} {B : Type μ} → Result E A → (A → Result E B) → Result E B
  err failure >>= next = err failure
  ok value >>= next = next value

  abbrev pub ◌>>◌ {μ} : {B : Type μ} → Result E (Unit {0}) → Result E B → Result E B
  first >> second = first >>= λ done. second

  -- A chain that succeeds has succeeded at its first step.
  pub >>=-eq-ok {κ μ} :
      {A : Type κ} {B : Type μ} (m : Result E A) (f : A → Result E B) {b : B}
      → (m >>= f) ≡ ok b
      → (a : A) × (m ≡ ok a) × (f a ≡ ok b)
  >>=-eq-ok (err failure) f h = cc
  >>=-eq-ok (ok value) f h = (value, refl, h)

  pub ok-injective {κ} : {A : Type κ} {a b : A} → ◌≡◌ {A = Result E A} (ok a) (ok b) → a ≡ b
  ok-injective h = cc
