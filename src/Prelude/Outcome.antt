-- ===== src/Prelude/Outcome.antt =====
-- `Result` with an error type of the component's own, `?` as `>>=`.
use mathlib.Core.Path.{ap, ◌≡◌, refl}
use mathlib.Core.Logic.{◌⊎◌, inl, inr}
use mathlib.Core.Bool.{Bool, true, false}
use mathlib.Core.Option.{Option, none, some}

pub data Result {ℓ κ} (E : Type κ) (A : Type ℓ) : Type (ℓ ⊔ κ) where
  ok : A → Result E A
  err : E → Result E A

infixl 5 ◌>>=◌
abbrev pub ◌>>=◌ {ℓ κ μ} :
    {E : Type κ} {A : Type ℓ} {B : Type μ} → Result E A → (A → Result E B) → Result E B
ok value >>= next = next value
err failure >>= next = err failure

infixl 5 ◌>>◌
abbrev pub ◌>>◌ {ℓ κ μ} :
    {E : Type κ} {A : Type ℓ} {B : Type μ} → Result E A → Result E B → Result E B
first >> second = first >>= λ _. second

module _ {ℓ κ} {E : Type κ} {A : Type ℓ} where
  -- `ok_or`, `ok_or_else`
  abbrev pub ok_or : Option A → E → Result E A
  ok_or none e = err e
  ok_or (some a) e = ok a

  -- `ok()`
  abbrev pub to_option : Result E A → Option A
  to_option (ok a) = some a
  to_option (err e) = none

module _ {κ} {E : Type κ} where
  -- `if b { bail!(e) }`
  abbrev pub bail_if : Bool → E → Result E (Unit {0})
  bail_if true e = err e
  bail_if false e = ok tt

module _ {ℓ κ μ} {E : Type κ} {A : Type ℓ} {B : Type μ} where
  pub >>=-eq-ok :
      (first : Result E A) (next : A → Result E B) {b : B}
      → (first >>= next) ≡ ok b
      → (a : A) × (first ≡ ok a) × (next a ≡ ok b)
  >>=-eq-ok (ok a) next h = (a, refl, h)
  >>=-eq-ok (err e) next h = cc

module _ {ℓ κ} {E : Type κ} {A : Type ℓ} where
  pub ok-injective : {a b : A} → ◌≡◌ {A = Result E A} (ok a) (ok b) → a ≡ b
  ok-injective e = cc

  pub Result-cases : (r : Result E A) → ((a : A) × (r ≡ ok a)) ⊎ ((e : E) × (r ≡ err e))
  Result-cases (ok a) = inl (a, refl)
  Result-cases (err e) = inr (e, refl)

  pub ok_or-eq-ok : (o : Option A) (e : E) {a : A} → ok_or o e ≡ ok a → o ≡ some a
  ok_or-eq-ok none e h = cc
  ok_or-eq-ok (some a) e h = ap some (ok-injective h)
