-- ===== src/Trace/Splitting.antt =====
-- `split_dash` cuts a text at its dashes, and nowhere else.
use sturnus.Prelude.{
  ℕ, ◌≡◌, refl, ap, ◌∙◌, ◌≢◌, true, List, [], ◌∷◌, ◌++◌, arith, All, nat_eq, ℕ_discrete,
}
use sturnus.Prelude.Str.{Text}
use sturnus.Trace.{split_dash, push_front, is_hex, is_text}

abbrev pub NoDash : Text → Type 0
NoDash = All λ c. c ≢ b'-'

-- The parts with dashes between them.
abbrev pub join : List Text → Text
join [] = []
join (p ∷ []) = p
join (p ∷ q ∷ ps) = p ++ b'-' ∷ join (q ∷ ps)

split_dash-dash : (c : ℕ) (s : Text) → c ≡ b'-' → split_dash (c ∷ s) ≡ [] ∷ split_dash s
unfolding split_dash nat_eq
split_dash-dash c s h = ground arith

split_dash-other : (c : ℕ) (s : Text) → c ≢ b'-' → split_dash (c ∷ s) ≡ push_front c (split_dash s)
unfolding split_dash nat_eq
split_dash-other c s h = ground arith

join-push_front :
    (c : ℕ) (first : Text) (more : List Text)
    → join (push_front c (first ∷ more)) ≡ c ∷ join (first ∷ more)
join-push_front c first [] = refl
join-push_front c first (p ∷ ps) = refl

-- Parts of a text: the dashes put back give the text, and no part has one.
abbrev pub Parts : Text → List Text → Type 0
Parts s ps =
    (first : Text) × (more : List Text) × (ps ≡ first ∷ more) × (join ps ≡ s) × All NoDash ps

Parts-cons :
    (c : ℕ) (s : Text) (ps : List Text)
    → Parts s ps
    → (c ≡ b'-' → Parts (c ∷ s) ([] ∷ ps)) × (c ≢ b'-' → Parts (c ∷ s) (push_front c ps))
Parts-cons c s [] (first, more, eq, joined, clean) = cc
Parts-cons c s (p ∷ ps) (first, more, eq, joined, clean) = (
  λ dash. ([], p ∷ ps, refl, rw (dash, joined) refl, (tt, clean)),
  λ other.
      (c ∷ p, ps, refl, join-push_front c p ps ∙ ap (◌∷◌ c) joined, ((other, clean.0), clean.1)),
)

pub split_dash-Parts : (s : Text) → Parts s (split_dash s)
unfolding split_dash
split_dash-Parts [] = ([], [], refl, refl, (tt, tt))
split_dash-Parts (c ∷ s) = elim (ℕ_discrete c b'-') [
  | yes dash ↦ rw (split_dash-dash c s dash) ((Parts-cons c s _ (split_dash-Parts s)).0 dash)
  | no other ↦ rw (split_dash-other c s other) ((Parts-cons c s _ (split_dash-Parts s)).1 other)
]

pub split_dash-part : (p s : Text) → NoDash p → split_dash (p ++ b'-' ∷ s) ≡ p ∷ split_dash s
split_dash-part [] s h = split_dash-dash b'-' s refl
split_dash-part (c ∷ p) s h =
    split_dash-other c (p ++ b'-' ∷ s) h.0 ∙ ap (push_front c) (split_dash-part p s h.1)

pub split_dash_single : (p : Text) → NoDash p → split_dash p ≡ p ∷ []
unfolding split_dash
split_dash_single [] h = refl
split_dash_single (c ∷ p) h = split_dash-other c p h.0 ∙ ap (push_front c) (split_dash_single p h.1)

pub is_hex-NoDash : (s : Text) → is_hex s ≡ true → NoDash s
unfolding is_hex
is_hex-NoDash [] h = tt
is_hex-NoDash (c ∷ s) h = (ground arith, is_hex-NoDash s (ground arith))

pub is_text_iff : (s t : Text) → (is_text s t ≡ true → s ≡ t) × (s ≡ t → is_text s t ≡ true)
unfolding nat_eq
is_text_iff [] [] = (λ h. refl, λ h. refl)
is_text_iff [] (b ∷ t) = (λ h. cc, λ h. cc)
is_text_iff (a ∷ s) [] = (λ h. cc, λ h. cc)
is_text_iff (a ∷ s) (b ∷ t) = ground (arith, is_text_iff s t)
