-- ===== src/ModelMap/Tracking.antt =====
-- What registering keeps of a tracker, `from_config` keeps.
use sturnus.Prelude.{
  ℕ, ◌≡◌, subst, String, List, [], ◌∷◌, Option, none, some, ok, >>=-eq-ok, ok-injective, string_eq,
  pair_eq,
}
use sturnus.Prelude.Dict.{Dict, lookup}
use sturnus.F64.{F64}
use sturnus.Http.{Http}
use sturnus.Candidate.{ResolvedCandidate}
use sturnus.Tracker.{Tracker, register}
use sturnus.Config.{ModelCandidate, Config}
use sturnus.ModelMap.{
  ModelMap, Registry, slot_from, slot_for, resolve, resolve_all, build, from_config,
}
use sturnus.ModelMap.Resolving.{resolve_ok}

module _ {F V M : Type 0} ⦃d : F64 F⦄ (h : Http V M) (config : Config F) (P : Tracker F → Type 0)
    (keeps : (t : Tracker F) → P t → P (register t).0) where
  slot_from_keeps :
      (r : Registry F) (key : String × String) (entry : Option ℕ)
      → P r.tracker
      → P (slot_from r key entry).0.tracker
  unfolding slot_from
  slot_from_keeps r key (some i) p = p
  slot_from_keeps r key none p = keeps r.tracker p

  resolve_keeps :
      (r : Registry F) (alias : String) (c : ModelCandidate) (s : Registry F)
      (rc : ResolvedCandidate V M)
      → resolve h config r alias c ≡ ok (s, rc)
      → P r.tracker
      → P s.tracker
  unfolding slot_for
  resolve_keeps r alias c s rc e p =
      let done = resolve_ok h config r alias c s rc e in
      subst (λ (x : Registry F × ℕ). P x.0.tracker) done.slot
        (slot_from_keeps r (c.provider, c.model) (lookup (c.provider, c.model) r.dedup) p)

  resolve_all_keeps :
      (r : Registry F) (alias : String) (cs : List ModelCandidate) (s : Registry F)
      (rcs : List (ResolvedCandidate V M))
      → resolve_all h config r alias cs ≡ ok (s, rcs)
      → P r.tracker
      → P s.tracker
  unfolding resolve_all
  resolve_all_keeps r alias [] s rcs e p = subst (λ x. P x.0.tracker) (ok-injective e) p
  resolve_all_keeps r alias (c ∷ cs) s rcs e p =
      let ((r1, rc), e1, f1) = >>=-eq-ok (resolve h config r alias c) _ e in
      let ((r2, later), e2, f2) = >>=-eq-ok (resolve_all h config r1 alias cs) _ f1 in
      subst (λ x. P x.0.tracker) (ok-injective f2)
        (resolve_all_keeps r1 alias cs r2 later e2 (resolve_keeps r alias c r1 rc e1 p))

  build_keeps_tracker :
      (r : Registry F) (m : ModelMap V M) (ms : Dict String (List ModelCandidate)) (s : Registry F)
      (m' : ModelMap V M)
      → build h config r m ms ≡ ok (s, m')
      → P r.tracker
      → P s.tracker
  unfolding build
  build_keeps_tracker r m [] s m' e p = subst (λ x. P x.0.tracker) (ok-injective e) p
  build_keeps_tracker r m ((alias, cs) ∷ ms) s m' e p =
      let ((r1, rcs), e1, f1) = >>=-eq-ok (resolve_all h config r alias cs) _ e in
      build_keeps_tracker r1 _ ms s m' f1 (resolve_all_keeps r alias cs r1 rcs e1 p)

  pub from_config_keeps :
      (t : Tracker F) (s : Registry F) (m : ModelMap V M)
      → from_config h config t ≡ ok (s, m)
      → P t
      → P s.tracker
  unfolding from_config
  from_config_keeps t s m e p = build_keeps_tracker _ _ config.model s m e p
