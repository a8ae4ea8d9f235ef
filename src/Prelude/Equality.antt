-- ===== src/Prelude/Equality.antt =====
-- `==` for every type whose equality can be decided.
use Prim.Native.Nat.{ℕ}
use Prim.Native.String.{String}
use mathlib.Core.Logic.{ite, dite}
use mathlib.Core.Path.{◌≡◌, ap, refl}
use mathlib.Core.Bool.{Bool, true, false, ◌||◌, Bool-discrete}
use mathlib.Core.List.{List, [], ◌∷◌}
use native.Mathlib.Decide.{ℕ_discrete}
use text.Mathlib.Text
use text.Mathlib.TextEquality.{eq_iff}

pub record Eq {ℓ} (A : Type ℓ) : Type ℓ where
  pub dec : Discrete A

module _ {ℓ} {A : Type ℓ} ⦃e : Eq A⦄ where
  infix 50 ◌==◌
  abbrev pub ◌==◌ : A → A → Bool
  a == b = ite (e.dec a b) true false

  abbrev pub contains : List A → A → Bool
  contains [] a = false
  contains (x ∷ xs) a = a == x || contains xs a

instance unfoldable pub nat_eq : Eq ℕ
nat_eq = record { dec = ℕ_discrete }

-- Shut in proofs, where a split on `s == t` gives the equation or its negation.
instance unfoldable pub string_eq : Eq String
string_eq = record {
  dec = λ s t.
      dite (Bool-discrete (Text.◌==◌ s t) true) (λ same. yes ((eq_iff s t).0 same))
        (λ differ. no (λ p. differ ((eq_iff s t).1 p)));
}

module _ {ℓ κ} {A : Type ℓ} {B : Type κ} where
  unfoldable pair_dec : (p q : A × B) → Dec (p.0 ≡ q.0) → Dec (p.1 ≡ q.1) → Dec (p ≡ q)
  pair_dec p q (yes e) (yes f) = yes (λ i. (e i, f i))
  pair_dec p q (no n) _ = no (λ e. n (ap (λ p. p.0) e))
  pair_dec p q (yes _) (no n) = no (λ e. n (ap (λ p. p.1) e))

  instance unfoldable pub pair_eq : ⦃a : Eq A⦄ ⦃b : Eq B⦄ → Eq (A × B)
  unfolding pair_dec
  pair_eq ⦃a⦄ ⦃b⦄ = record { dec = λ p q. pair_dec p q (a.dec p.0 q.0) (b.dec p.1 q.1) }

module _ {ℓ} {A : Type ℓ} where
  unfoldable cons_dec :
      (x y : A) (xs ys : List A)
      → Dec (x ≡ y)
      → Dec (xs ≡ ys)
      → Dec (◌≡◌ {A = List A} (x ∷ xs) (y ∷ ys))
  cons_dec x y xs ys (yes e) (yes f) = yes (λ i. e i ∷ f i)
  cons_dec x y xs ys (no n) _ = no (λ e. n (cc))
  cons_dec x y xs ys (yes _) (no n) = no (λ e. n (cc))

  unfoldable list_dec : Eq A → (xs ys : List A) → Dec (xs ≡ ys)
  unfolding cons_dec
  list_dec d [] [] = yes refl
  list_dec d [] (y ∷ ys) = no (λ e. cc)
  list_dec d (x ∷ xs) [] = no (λ e. cc)
  list_dec d (x ∷ xs) (y ∷ ys) = cons_dec x y xs ys (d.dec x y) (list_dec d xs ys)

  instance unfoldable pub list_eq : ⦃d : Eq A⦄ → Eq (List A)
  unfolding list_dec
  list_eq ⦃d⦄ = record { dec = list_dec d }
