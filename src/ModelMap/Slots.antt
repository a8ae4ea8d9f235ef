-- ===== src/ModelMap/Slots.antt =====
-- `from_config`: candidates share a slot exactly when they have the same provider and model.
use sturnus.Prelude.{
  ◌<◌, ◌≡◌, ◌↔◌, sym, ap, ◌∙◌, subst, String, List, [], ◌∷◌, string_eq, some, ok, >>=-eq-ok,
  ok-injective, length, All, All_mono, All-append, All_pairs, pair_eq, some-injective,
}
use sturnus.Prelude.Dict.{Dict, lookup, insert-All, lookup-All}
use sturnus.F64.{F64}
use sturnus.Http.{Http}
use sturnus.Candidate.{ResolvedCandidate}
use sturnus.Tracker.{Tracker}
use sturnus.Config.{ModelCandidate, Config}
use sturnus.ModelMap.{
  ModelMap, Registry, resolve_all, build, from_config, get, iter, flat_map, tagged,
}
use sturnus.ModelMap.Dedup.{Registered, IsRegistry, Extends}
use sturnus.ModelMap.Resolving.{Held, resolve_all-Held}

module _ {V M : Type 0} where
  abbrev pub SameModel : ResolvedCandidate V M → ResolvedCandidate V M → Type 0
  SameModel a b = (a.provider_name ≡ b.provider_name) × (a.model ≡ b.model)

module _ {F V M : Type 0} ⦃d : F64 F⦄ (h : Http V M) (config : Config F) where
  AllHeld : Registry F → ModelMap V M → Type 0
  AllHeld s m = All (λ (alias, cs). All (Held h config s) cs) m.aliases

  AllHeld-mono : (r s : Registry F) (m : ModelMap V M) → Extends r s → AllHeld r m → AllHeld s m
  unfolding AllHeld
  AllHeld-mono r s m x = All_mono (λ (alias, cs). All_mono (λ c. x.kept _ _) cs) m.aliases

  build-Held :
      (r : Registry F) (m : ModelMap V M) (ms : Dict String (List ModelCandidate)) (s : Registry F)
      (m' : ModelMap V M)
      → build h config r m ms ≡ ok (s, m')
      → IsRegistry r
      → AllHeld r m
      → IsRegistry s × AllHeld s m'
  unfolding build AllHeld
  build-Held r m [] s m' e v a =
      subst (λ (p : Registry F × ModelMap V M). IsRegistry p.0 × AllHeld p.0 p.1) (ok-injective e)
        (v, a)
  build-Held r m ((alias, cs) ∷ ms) s m' e v a =
      let ((r1, rcs), e1, f1) = >>=-eq-ok (resolve_all h config r alias cs) _ e in
      let (v1, x1, held) = resolve_all-Held h config r alias cs r1 rcs e1 v in
      build-Held r1 _ ms s m' f1 v1
        (insert-All _ alias rcs m.aliases held (AllHeld-mono r r1 m x1 a))

  -- The registry of `from_config` before the first alias.
  empty-IsRegistry : (t : Tracker F) → IsRegistry (record { dedup = []; tracker = t })
  unfolding lookup
  empty-IsRegistry t = record { in_tracker = λ key i e. cc; injective = λ j k i e f. cc }

  flat_map-Held :
      (s : Registry F) (m : Dict String (List (ResolvedCandidate V M)))
      → All (λ (alias, cs). All (Held h config s) cs) m
      → All (λ (alias, c). Held h config s c) (flat_map m)
  unfolding flat_map
  flat_map-Held s [] a = tt
  flat_map-Held s ((alias, cs) ∷ m) (a, rest) =
      All-append _ (tagged alias cs) (flat_map m) (tagged_held cs a) (flat_map-Held s m rest)
    where
      tagged_held :
          (cs : List (ResolvedCandidate V M))
          → All (Held h config s) cs
          → All (λ (alias, c). Held h config s c) (tagged alias cs)
      tagged_held [] a = tt
      tagged_held (c ∷ cs) (a, rest) = (a, tagged_held cs rest)

  pub iter-Held :
      (t : Tracker F) (s : Registry F) (m : ModelMap V M)
      → from_config h config t ≡ ok (s, m)
      → IsRegistry s × All (λ (alias, c). Held h config s c) (iter m)
  unfolding from_config iter AllHeld
  iter-Held t s m e =
      let (v, held) = build-Held _ _ config.model s m e (empty-IsRegistry t) tt in
      (v, flat_map-Held s m.aliases held)

  pub same_slot :
      (s : Registry F) (a b : ResolvedCandidate V M)
      → Held h config s a
      → Held h config s b
      → SameModel a b
      → a.stats_index ≡ b.stats_index
  same_slot s a b p q (providers, models) = some-injective _ _ (
      sym p
      ∙ ap (λ n. lookup (n, a.model) s.dedup) providers
      ∙ ap (λ n. lookup (b.provider_name, n) s.dedup) models
      ∙ q)

  -- Over all aliases that `from_config` returns, two candidates share a slot of the tracker exactly
  -- when their providers and models are the same.
  pub from_config_shares_slots :
      (t : Tracker F) (s : Registry F) (m : ModelMap V M)
      → from_config h config t ≡ ok (s, m)
      → All
          (λ (_, a). All (λ (_, b). (a.stats_index ≡ b.stats_index) ↔ SameModel a b) (iter m))
          (iter m)
  from_config_shares_slots t s m e =
      let (v, held) = iter-Held t s m e in
      All_pairs
        (λ (_, a) (_, b) p q. (
          λ same.
              let keys =
                v.injective _ _ a.stats_index p
                  (subst (λ i. Registered s (b.provider_name, b.model) i) (sym same) q) in
              (ap (λ k. k.0) keys, ap (λ k. k.1) keys),
          same_slot s a b p q,
        ))
        (iter m) (iter m) held held

  -- Every candidate that `from_config` returns has a slot in the tracker that it returns, so that no
  -- operation of the tracker on it is out of bounds.
  pub from_config_in_tracker :
      (t : Tracker F) (s : Registry F) (m : ModelMap V M)
      → from_config h config t ≡ ok (s, m)
      → All (λ (_, c). c.stats_index < length s.tracker.stats) (iter m)
  from_config_in_tracker t s m e =
      let (v, held) = iter-Held t s m e in
      All_mono (λ (_, c) p. v.in_tracker _ c.stats_index p) (iter m) held

  -- The candidates that `get` answers with have slots in the tracker.
  pub from_config_registers :
      (t : Tracker F) (s : Registry F) (m : ModelMap V M) (alias : String)
      (cs : List (ResolvedCandidate V M))
      → from_config h config t ≡ ok (s, m)
      → get m alias ≡ some cs
      → All (λ c. c.stats_index < length s.tracker.stats) cs
  unfolding from_config AllHeld get
  from_config_registers t s m alias cs e found =
      let (v, held) = build-Held _ _ config.model s m e (empty-IsRegistry t) tt in
      All_mono (λ c p. v.in_tracker _ c.stats_index p) cs
        (lookup-All (All (Held h config s)) alias m.aliases cs found held)

  -- Candidates of one alias with the same provider and model have the same slot.
  pub from_config_shares :
      (t : Tracker F) (s : Registry F) (m : ModelMap V M) (alias : String)
      (cs : List (ResolvedCandidate V M))
      → from_config h config t ≡ ok (s, m)
      → get m alias ≡ some cs
      → All (λ a. All (λ b. SameModel a b → a.stats_index ≡ b.stats_index) cs) cs
  unfolding from_config AllHeld get
  from_config_shares t s m alias cs e found =
      let (v, all) = build-Held _ _ config.model s m e (empty-IsRegistry t) tt in
      let held = lookup-All (All (Held h config s)) alias m.aliases cs found all in
      All_pairs (λ a b p q. same_slot s a b p q) cs cs held held
