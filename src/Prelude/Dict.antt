-- ===== src/Prelude/Dict.antt =====
-- `HashMap` as an association list, in an order that no theorem fixes.
use mathlib.Core.Path.{◌≡◌, refl, sym, subst}
use mathlib.Core.Logic.{◌≢◌, inl, inr}
use mathlib.Core.Bool.{Bool, true, false, ◌||◌}
use mathlib.Core.Option.{Option, none, some, some-injective}
use mathlib.Core.List.{List, [], ◌∷◌}
use native.Mathlib.Omega.{arith}
use sturnus.Prelude.Tests.{if◌then◌else◌, Bool-cases}
use sturnus.Prelude.Lists.{All}
use sturnus.Prelude.Equality.{Eq, ◌==◌}

abbrev pub Dict {ℓ κ} : Type ℓ → Type κ → Type (ℓ ⊔ κ)
Dict K V = List (K × V)

module _ {ℓ κ} {K : Type ℓ} {V : Type κ} where
  abbrev pub keys : Dict K V → List K
  keys [] = []
  keys ((k, v) ∷ m) = k ∷ keys m

  abbrev pub values : Dict K V → List V
  values [] = []
  values ((k, v) ∷ m) = v ∷ values m

module _ {ℓ κ} {K : Type ℓ} {V : Type κ} ⦃e : Eq K⦄ where
  unfoldable pub lookup : K → Dict K V → Option V
  lookup key [] = none
  lookup key ((other, value) ∷ rest) = if other == key then some value else lookup key rest

  unfoldable pub contains_key : K → Dict K V → Bool
  contains_key k [] = false
  contains_key k ((j, v) ∷ m) = j == k || contains_key k m

  -- `insert`: a key that is there keeps its place.
  unfoldable pub insert : K → V → Dict K V → Dict K V
  insert key value [] = (key, value) ∷ []
  insert key value ((other, old) ∷ rest) =
      if other == key then (key, value) ∷ rest else (other, old) ∷ insert key value rest

  pub lookup-insert :
      (k j : K) (v : V) (m : Dict K V)
      → lookup j (insert k v m) ≡ (if k == j then some v else lookup j m)
  unfolding lookup insert
  lookup-insert k j v [] = refl
  lookup-insert k j v (_ ∷ m) = ground (arith, lookup-insert k j v m)

  pub lookup-insert_self : (k : K) (v : V) (m : Dict K V) → lookup k (insert k v m) ≡ some v
  lookup-insert_self k v m = ground (arith, lookup-insert k k v m)

  pub lookup-insert_ne :
      (k j : K) (v : V) (m : Dict K V) → k ≢ j → lookup j (insert k v m) ≡ lookup j m
  lookup-insert_ne k j v m h = ground (arith, lookup-insert k j v m)

  pub contains_key-lookup :
      (k : K) (m : Dict K V) → contains_key k m ≡ true → (v : V) × (lookup k m ≡ some v)
  unfolding contains_key lookup
  contains_key-lookup k [] h = cc
  contains_key-lookup k ((j, v) ∷ m) h = elim (Bool-cases (j == k)) [
    | inl same ↦ rw same (v, refl)
    | inr other ↦ rw other (contains_key-lookup k m (rw other at h))
  ]

  abbrev pub NodupKeys : Dict K V → Type κ
  NodupKeys [] = Unit
  NodupKeys ((k, _) ∷ m) = (lookup k m ≡ none) × NodupKeys m

  pub insert-NodupKeys : (k : K) (v : V) (m : Dict K V) → NodupKeys m → NodupKeys (insert k v m)
  unfolding insert lookup
  insert-NodupKeys k v [] _ = (refl, tt)
  insert-NodupKeys k v ((j, _) ∷ m) (fresh, u) =
      ground (arith, insert-NodupKeys k v m u, lookup-insert k j v m)

  pub insert-All {μ} :
      (P : V → Type μ) (k : K) (v : V) (m : Dict K V)
      → P v
      → All (λ (j, w). P w) m
      → All (λ (j, w). P w) (insert k v m)
  unfolding insert
  insert-All P k v [] p _ = (p, tt)
  insert-All P k v ((j, w) ∷ m) p (q, qs) = elim (Bool-cases (j == k)) [
    | inl same ↦
        subst (λ b. All (λ (i, x). P x) (if b then (k, v) ∷ m else (j, w) ∷ insert k v m))
          (sym same) (p, qs)
    | inr other ↦
        subst (λ b. All (λ (i, x). P x) (if b then (k, v) ∷ m else (j, w) ∷ insert k v m))
          (sym other) (q, insert-All P k v m p qs)
  ]

  pub lookup-All {μ} :
      (P : V → Type μ) (k : K) (m : Dict K V) (v : V)
      → lookup k m ≡ some v
      → All (λ (j, w). P w) m
      → P v
  unfolding lookup
  lookup-All P k [] v e _ = cc
  lookup-All P k ((j, w) ∷ m) v e (q, qs) = elim (Bool-cases (j == k)) [
    | inl same ↦ subst P (some-injective _ _ (rw same at e)) q
    | inr other ↦ lookup-All P k m v (rw other at e) qs
  ]
