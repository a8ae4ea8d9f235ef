-- ===== src/Prelude/Partial.antt =====
-- `Option` as the monad of steps that may panic or find nothing.
use Prim.Native.Nat.{ℕ, zero, suc}
use mathlib.Core.Path.{◌≡◌, refl}
use mathlib.Core.Logic.{inl, inr}
use mathlib.Core.Option.{Option, none, some, none-ne-some, some-injective}
use mathlib.Core.List.{List, [], ◌∷◌}
use native.Mathlib.Omega.{arith}
use sturnus.Prelude.Tests.{Option-cases}
use sturnus.Prelude.Lists.{get_elem?}

infixl 5 ◌>>=◌
abbrev pub ◌>>=◌ {ℓ κ} : {A : Type ℓ} {B : Type κ} → Option A → (A → Option B) → Option B
none >>= f = none
some a >>= f = f a

module _ {ℓ κ} {A : Type ℓ} {B : Type κ} where
  -- `iter().map(f).collect()` where `f` may fail.
  abbrev pub traverse : (A → Option B) → List A → Option (List B)
  traverse f [] = some []
  traverse f (x ∷ xs) = do some ((← f x) ∷ (← traverse f xs))

  pub >>=-eq-some :
      (m : Option A) (f : A → Option B) {b : B}
      → (m >>= f) ≡ some b
      → (a : A) × (m ≡ some a) × (f a ≡ some b)
  >>=-eq-some (some a) f h = (a, refl, h)
  >>=-eq-some none f h = cc

  pub traverse-get_elem? :
      (f : A → Option B) (xs : List A) (ys : List B) (i : ℕ) (x : A) (y : B)
      → traverse f xs ≡ some ys
      → get_elem? xs i ≡ some x
      → f x ≡ some y
      → get_elem? ys i ≡ some y
  traverse-get_elem? f [] ys i x y e at h = cc
  traverse-get_elem? f (z ∷ xs) ys zero x y e at h = ground (arith, Option-cases (traverse f xs))
  traverse-get_elem? f (z ∷ xs) ys (suc i) x y e at h = elim (Option-cases (f z)) [
    | inl missing ↦ absurd (none-ne-some ys (rw missing at e))
    | inr (z', found) ↦ elim (Option-cases (traverse f xs)) [
      | inl missing ↦ absurd (none-ne-some ys (rw (found, missing) at e))
      | inr (zs, rest) ↦
          rw (← some-injective (z' ∷ zs) ys (rw (found, rest) at e))
            (traverse-get_elem? f xs zs i x y rest at h)
    ]
  ]
