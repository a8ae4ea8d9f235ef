-- ===== src/Prelude/Lists.antt =====
-- Lists measured and indexed by native numbers, under the library's names.
use Prim.Native.Nat.{ℕ, zero, suc, ◌+◌, ◌<◌, ◌≤◌}
use mathlib.Core.Path.{◌≡◌, refl, ap, subst}
use mathlib.Core.Logic.{◌≢◌}
use mathlib.Core.Bool.{Bool, true, false, ◌&&◌, ◌||◌}
use mathlib.Core.List.{List, [], ◌∷◌, ◌++◌, map}
use mathlib.Core.Option.{Option, none, some, some-injective}
use native.Mathlib.Omega.{arith}
use sturnus.Prelude.Tests.{if◌then◌else◌}

module _ {ℓ} {A : Type ℓ} where
  abbrev pub length : List A → ℕ
  length [] = 0
  length (x ∷ xs) = suc (length xs)

  abbrev pub get_elem? : List A → ℕ → Option A
  get_elem? [] i = none
  get_elem? (x ∷ xs) zero = some x
  get_elem? (x ∷ xs) (suc i) = get_elem? xs i

  -- The element at an index, changed; out of range the list stays.
  abbrev pub modify : ℕ → (A → A) → List A → List A
  modify i f [] = []
  modify zero f (x ∷ xs) = f x ∷ xs
  modify (suc i) f (x ∷ xs) = x ∷ modify i f xs

  abbrev pub all : (A → Bool) → List A → Bool
  all p [] = true
  all p (x ∷ xs) = p x && all p xs

  abbrev pub any : (A → Bool) → List A → Bool
  any p [] = false
  any p (x ∷ xs) = p x || any p xs

  abbrev pub find : (A → Bool) → List A → Option A
  find p [] = none
  find p (x ∷ xs) = let later = find p xs in if p x then some x else later

  abbrev pub All {κ} : (A → Type κ) → List A → Type κ
  All P [] = Unit
  All P (x ∷ xs) = P x × All P xs

  pub length-append : (xs ys : List A) → length (xs ++ ys) ≡ length xs + length ys
  length-append [] ys = omega arith
  length-append (x ∷ xs) ys = omega (arith, length-append xs ys)

  pub length-modify : (i : ℕ) (f : A → A) (xs : List A) → length (modify i f xs) ≡ length xs
  length-modify i f [] = refl
  length-modify zero f (x ∷ xs) = refl
  length-modify (suc i) f (x ∷ xs) = ap suc (length-modify i f xs)

module _ {ℓ κ} {A : Type ℓ} {B : Type κ} where
  pub length-map : (f : A → B) (xs : List A) → length (map f xs) ≡ length xs
  length-map f [] = refl
  length-map f (x ∷ xs) = ap suc (length-map f xs)

module _ {ℓ} {A : Type ℓ} where
  pub get_elem?-modify_self :
      (i : ℕ) (f : A → A) (xs : List A) {a : A}
      → get_elem? xs i ≡ some a
      → get_elem? (modify i f xs) i ≡ some (f a)
  get_elem?-modify_self i f [] h = cc
  get_elem?-modify_self zero f (x ∷ xs) h = cc
  get_elem?-modify_self (suc i) f (x ∷ xs) h = get_elem?-modify_self i f xs h

  pub get_elem?-modify_ne :
      (i j : ℕ) (f : A → A) (xs : List A) → i ≢ j → get_elem? (modify i f xs) j ≡ get_elem? xs j
  get_elem?-modify_ne i j f [] h = refl
  get_elem?-modify_ne zero zero f (x ∷ xs) h = absurd (h refl)
  get_elem?-modify_ne zero (suc j) f (x ∷ xs) h = refl
  get_elem?-modify_ne (suc i) zero f (x ∷ xs) h = refl
  get_elem?-modify_ne (suc i) (suc j) f (x ∷ xs) h =
      get_elem?-modify_ne i j f xs (λ e. h (ap suc e))

  pub modify_comm :
      (i j : ℕ) (f g : A → A) (xs : List A)
      → i ≢ j
      → modify i f (modify j g xs) ≡ modify j g (modify i f xs)
  modify_comm i j f g [] h = refl
  modify_comm zero zero f g (x ∷ xs) h = absurd (h refl)
  modify_comm zero (suc j) f g (x ∷ xs) h = refl
  modify_comm (suc i) zero f g (x ∷ xs) h = refl
  modify_comm (suc i) (suc j) f g (x ∷ xs) h =
      ap (◌∷◌ x) (modify_comm i j f g xs (λ e. h (ap suc e)))

  pub modify_twice :
      (i : ℕ) (f g : A → A) (xs : List A) → modify i g (modify i f xs) ≡ modify i (λ a. g (f a)) xs
  modify_twice i f g [] = refl
  modify_twice zero f g (x ∷ xs) = refl
  modify_twice (suc i) f g (x ∷ xs) = ap (◌∷◌ x) (modify_twice i f g xs)

  pub get_elem?-append_left :
      (xs ys : List A) (i : ℕ) → i < length xs → get_elem? (xs ++ ys) i ≡ get_elem? xs i
  get_elem?-append_left [] ys i h = absurd (omega arith)
  get_elem?-append_left (x ∷ xs) ys zero h = refl
  get_elem?-append_left (x ∷ xs) ys (suc i) h = get_elem?-append_left xs ys i (omega arith)

  pub get_elem?-append_length :
      (xs : List A) (a : A) → get_elem? (xs ++ a ∷ []) (length xs) ≡ some a
  get_elem?-append_length [] a = refl
  get_elem?-append_length (x ∷ xs) a = get_elem?-append_length xs a

  pub get_elem?-length : (xs : List A) → get_elem? xs (length xs) ≡ none
  get_elem?-length [] = refl
  get_elem?-length (x ∷ xs) = get_elem?-length xs

  pub get_elem?-none : (xs : List A) (i : ℕ) → length xs ≤ i → get_elem? xs i ≡ none
  get_elem?-none [] i h = refl
  get_elem?-none (x ∷ xs) zero h = absurd (omega arith)
  get_elem?-none (x ∷ xs) (suc i) h = get_elem?-none xs i (omega arith)

  pub get_elem?-some : (xs : List A) (i : ℕ) → i < length xs → (a : A) × (get_elem? xs i ≡ some a)
  get_elem?-some [] i h = absurd (omega arith)
  get_elem?-some (x ∷ xs) zero h = (x, refl)
  get_elem?-some (x ∷ xs) (suc i) h = get_elem?-some xs i (omega arith)

  pub get_elem?-lt : (xs : List A) (i : ℕ) {a : A} → get_elem? xs i ≡ some a → i < length xs
  get_elem?-lt [] i h = cc
  get_elem?-lt (x ∷ xs) zero h = omega arith
  get_elem?-lt (x ∷ xs) (suc i) h = omega (arith, get_elem?-lt xs i h)

module _ {ℓ κ} {A : Type ℓ} (P : A → Type κ) where
  pub All-modify :
      (i : ℕ) (f : A → A) (xs : List A)
      → ((a : A) → P a → P (f a))
      → All P xs
      → All P (modify i f xs)
  All-modify i f [] k h = tt
  All-modify zero f (x ∷ xs) k h = (k x h.0, h.1)
  All-modify (suc i) f (x ∷ xs) k h = (h.0, All-modify i f xs k h.1)

  pub All-append : (xs ys : List A) → All P xs → All P ys → All P (xs ++ ys)
  All-append [] ys h k = k
  All-append (x ∷ xs) ys h k = (h.0, All-append xs ys h.1 k)

  pub All-get_elem? : (xs : List A) (i : ℕ) {a : A} → All P xs → get_elem? xs i ≡ some a → P a
  All-get_elem? [] i h e = cc
  All-get_elem? (x ∷ xs) zero h e = subst P (some-injective x _ e) h.0
  All-get_elem? (x ∷ xs) (suc i) h e = All-get_elem? xs i h.1 e

module _ {ℓ κ μ} {A : Type ℓ} where
  pub All_mono :
      {P : A → Type κ} {Q : A → Type μ}
      → ((a : A) → P a → Q a)
      → (xs : List A) → All P xs
      → All Q xs
  All_mono f [] _ = tt
  All_mono f (x ∷ xs) (p, ps) = (f x p, All_mono f xs ps)

module _ {ℓ κ} {A : Type ℓ} where
  -- What two elements have in common, of all pairs of elements.
  pub All_pairs :
      {P : A → Type κ} {Q : A → A → Type κ}
      → ((a b : A) → P a → P b → Q a b)
      → (xs ys : List A) → All P xs
      → All P ys
      → All (λ a. All (Q a) ys) xs
  All_pairs f [] ys _ q = tt
  All_pairs f (x ∷ xs) ys (p, ps) q = (All_mono (λ b. f x b p) ys q, All_pairs f xs ys ps q)

module _ {ℓ} {A : Type ℓ} where
  pub append_snoc : (xs : List A) (x : A) (ys : List A) → (xs ++ x ∷ []) ++ ys ≡ xs ++ x ∷ ys
  append_snoc [] x ys = refl
  append_snoc (z ∷ xs) x ys = ap (λ l. z ∷ l) (append_snoc xs x ys)

  pub append_nil : (xs : List A) → xs ++ [] ≡ xs
  append_nil [] = refl
  append_nil (x ∷ xs) = ap (λ l. x ∷ l) (append_nil xs)

module _ {ℓ κ μ} {A : Type ℓ} where
  pub All-and :
      (P : A → Type κ) (Q : A → Type μ) (xs : List A)
      → All P xs
      → All Q xs
      → All (λ a. P a × Q a) xs
  All-and P Q [] _ _ = tt
  All-and P Q (x ∷ xs) (p, ps) (q, qs) = ((p, q), All-and P Q xs ps qs)

-- One element of a list, and the others.
pub data Takes {ℓ} {A : Type ℓ} : List A → A → List A → Type ℓ where
  here : {x : A} {xs : List A} → Takes (x ∷ xs) x xs
  there : {x z : A} {xs ys : List A} → Takes xs x ys → Takes (z ∷ xs) x (z ∷ ys)

-- One element of a list, another, and the list with that in its place.
pub data Replaces {ℓ} {A : Type ℓ} : List A → A → A → List A → Type ℓ where
  at_head : {x y : A} {xs : List A} → Replaces (x ∷ xs) x y (y ∷ xs)
  in_tail : {x y z : A} {xs ys : List A} → Replaces xs x y ys → Replaces (z ∷ xs) x y (z ∷ ys)

module _ {ℓ κ} {A : Type ℓ} (P : A → Type κ) where
  pub All-Takes : {xs ys : List A} {x : A} → Takes xs x ys → All P xs → P x × All P ys
  All-Takes here ps = ps
  All-Takes (there r) (p, ps) = let (q, qs) = All-Takes r ps in (q, (p, qs))
