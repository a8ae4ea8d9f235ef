-- ===== src/Handler/Choice.antt =====
-- The choice of the candidate: pins, and the router for the rest.
use sturnus.Prelude.{
  suc, ℕ, ◌*◌, ◌<◌, ◌≡◌, refl, subst, Bool, true, false, Bool-cases, inl, inr, String, List, [],
  ◌∷◌, Option, none, some, get_elem?, find, length, All-get_elem?, get_elem?-some, string_eq,
  some-injective,
}
use sturnus.Prelude.Partial.{◌>>=◌}
use sturnus.F64.{F64, IsIeee, fzero, fone, ◌≼◌, u64_mod}
use sturnus.Candidate.{ResolvedCandidate}
use sturnus.Tracker.{LatencyMode, Tracker, is_degraded, stats_at}
use sturnus.Tracker.Invariant.{IsValid}
use sturnus.Router.{RoundRobinState, select_candidate, next_tick}
use sturnus.Router.Weighing.{Registered}
use sturnus.Router.Selection.{select_candidate-total}
use sturnus.Handler.{is_named, keep_pin, pinned, route_to, choose}

module _ {A : Type 0} (p : A → Bool) where
  find-get_elem? :
      (xs : List A) (x : A)
      → find p xs ≡ some x
      → (i : ℕ) × (get_elem? xs i ≡ some x) × (p x ≡ true)
  find-get_elem? [] x e = cc
  find-get_elem? (y ∷ xs) x e = elim (Bool-cases (p y)) [
    | inl hit ↦ (0, rw hit at e, subst (λ z. p z ≡ true) (some-injective _ _ (rw hit at e)) hit)
    | inr miss ↦ let (i, at, ok) = find-get_elem? xs x (rw miss at e) in (suc i, at, ok)
  ]

module _ {F V M : Type 0} ⦃d : F64 F⦄ (t : Tracker F)
    (candidates : List (ResolvedCandidate V M)) where
  -- A pin to a candidate that is not degraded is honoured, without a tick of the router; one to a
  -- degraded candidate, or to none of the alias, is as if there were no pin.
  pub choose-pinned :
      (alias : String) (rr : RoundRobinState) (k : F) (mode : LatencyMode) (names : String × String)
      → ((c : ResolvedCandidate V M)
          → find (is_named names) candidates ≡ some c
          → is_degraded t c.stats_index ≡ some false
          → choose alias candidates t rr k mode (some names) ≡ some (some c, rr))
        × ((c : ResolvedCandidate V M)
            → find (is_named names) candidates ≡ some c
            → is_degraded t c.stats_index ≡ some true
            → choose alias candidates t rr k mode (some names)
              ≡ choose alias candidates t rr k mode none)
        × (find (is_named names) candidates ≡ none
            → choose alias candidates t rr k mode (some names)
              ≡ choose alias candidates t rr k mode none)
  unfolding choose pinned keep_pin route_to
  choose-pinned alias rr k mode names = (
    λ c found healthy. rw (found, healthy) refl,
    λ c found degraded. rw (found, degraded) refl,
    λ absent. rw absent refl,
  )

-- What the choice returns: one of the candidates.
abbrev pub ChoosesMember :
    {V M : Type 0}
    → List (ResolvedCandidate V M)
    → Option (Option (ResolvedCandidate V M) × RoundRobinState)
    → Type 0
ChoosesMember {V} {M} candidates r =
    (i : ℕ) × (chosen : ResolvedCandidate V M) × (rr' : RoundRobinState) × (get_elem? candidates i
      ≡ some chosen)
    × (r ≡ some (some chosen, rr'))

module _ {F : Type 0} ⦃d : F64 F⦄ (ieee : IsIeee F) {V M : Type 0} (t : Tracker F) (v : IsValid t)
    (k : F) (k_nonneg : fzero ≼ k) (mode : LatencyMode) (c : ResolvedCandidate V M)
    (cs : List (ResolvedCandidate V M)) (registered : Registered t (c ∷ cs))
    (few : 1000 * length (c ∷ cs) < u64_mod) where
  routed :
      (alias : String) (rr : RoundRobinState)
      → ChoosesMember (c ∷ cs) (select_candidate alias (c ∷ cs) t rr k mode)
  routed alias rr =
      let (i, chosen, ws, w, e, at, _, _, _, _, _) =
        select_candidate-total ieee t v k k_nonneg mode c cs registered few alias rr in
      (i, chosen, (next_tick rr alias).1, at, e)

  is_degraded-total :
      (index : ℕ) → index < length t.stats → (b : Bool) × (is_degraded t index ≡ some b)
  unfolding is_degraded stats_at
  is_degraded-total index h =
      let (s, slot) = get_elem?-some t.stats index h in
      (d.lt t.error_threshold (d.sub fone s.success_rate), rw slot refl)

  kept_pin :
      (alias : String) (rr : RoundRobinState) (i : ℕ) (x : ResolvedCandidate V M) (degraded : Bool)
      → get_elem? (c ∷ cs) i ≡ some x
      → is_degraded t x.stats_index ≡ some degraded
      → ChoosesMember
          (c ∷ cs)
          (keep_pin t (some x) >>= λ pin. route_to alias (c ∷ cs) t rr k mode pin)
  unfolding keep_pin route_to
  kept_pin alias rr i x false at e = (i, x, rr, at, rw e refl)
  kept_pin alias rr i x true at e =
      let (j, chosen, rr', found, f) = routed alias rr in (j, chosen, rr', found, rw e f)

  kept :
      (alias : String) (rr : RoundRobinState) (found : Option (ResolvedCandidate V M))
      → ((x : ResolvedCandidate V M) → found ≡ some x → (i : ℕ) × (get_elem? (c ∷ cs) i ≡ some x))
      → ChoosesMember (c ∷ cs) (keep_pin t found >>= λ pin. route_to alias (c ∷ cs) t rr k mode pin)
  unfolding keep_pin route_to
  kept alias rr none member = routed alias rr
  kept alias rr (some x) member =
      let (i, at) = member x refl in
      let (degraded, e) =
        is_degraded-total x.stats_index (All-get_elem? _ (c ∷ cs) i registered at) in
      kept_pin alias rr i x degraded at e

  -- With registered candidates, at least one and no more than 2^64 / 1000, a valid tracker and an
  -- exponent of 0 or more: whatever affinity a client sends, the choice never panics and never comes
  -- back empty, but returns one of the alias's candidates.
  pub choose-total :
      (alias : String) (rr : RoundRobinState) (affinity : Option (String × String))
      → ChoosesMember (c ∷ cs) (choose alias (c ∷ cs) t rr k mode affinity)
  unfolding choose pinned route_to
  choose-total alias rr none = routed alias rr
  choose-total alias rr (some names) =
      kept alias rr (find (is_named names) (c ∷ cs))
        (λ x e. let (i, at, _) = find-get_elem? (is_named names) (c ∷ cs) x e in (i, at))
