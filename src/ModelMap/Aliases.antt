-- ===== src/ModelMap/Aliases.antt =====
-- `from_config` answers each alias of the configuration with its candidates, in order.
use sturnus.Prelude.{
  ◌≡◌, refl, sym, ap, ◌∙◌, subst, String, List, [], ◌∷◌, Option, none, some, arith, string_eq, ◌==◌,
  Bool-cases, inl, inr, some-injective, ok, >>=-eq-ok, ok-injective,
}
use sturnus.Prelude.Dict.{Dict, lookup, lookup-insert, NodupKeys}
use sturnus.F64.{F64}
use sturnus.Http.{Http}
use sturnus.Candidate.{ResolvedCandidate}
use sturnus.Tracker.{Tracker}
use sturnus.Config.{ModelCandidate, Config}
use sturnus.ModelMap.{ModelMap, Registry, resolve_all, build, from_config, get}
use sturnus.ModelMap.Resolving.{Resolves, resolve_all_resolves}

module _ {F V M : Type 0} ⦃d : F64 F⦄ (h : Http V M) (config : Config F) where
  -- What `get` answers for an alias whose candidates the configuration lists, or does not.
  abbrev pub Answers : Option (List ModelCandidate) → Option (List (ResolvedCandidate V M)) → Type 0
  Answers none found = found ≡ none
  Answers (some cs) found =
      (rcs : List (ResolvedCandidate V M)) × (found ≡ some rcs) × Resolves h config cs rcs

  build_keeps :
      (r : Registry F) (m : ModelMap V M) (ms : Dict String (List ModelCandidate)) (s : Registry F)
      (m' : ModelMap V M) (alias : String)
      → build h config r m ms ≡ ok (s, m')
      → lookup alias ms ≡ none
      → get m' alias ≡ get m alias
  unfolding build get lookup
  build_keeps r m [] s m' alias e absent =
      ap (λ (p : Registry F × ModelMap V M). lookup alias p.1.aliases) (sym (ok-injective e))
  build_keeps r m ((a, cs) ∷ ms) s m' alias e absent =
      let ((r1, rcs), e1, f1) = >>=-eq-ok (resolve_all h config r a cs) _ e in
      elim (Bool-cases (a == alias)) [
        | inl same ↦ absurd (ground arith)
        | inr other ↦
            build_keeps r1 _ ms s m' alias f1 (rw other at absent)
            ∙ (lookup-insert a alias rcs m.aliases ∙ rw other refl)
      ]

  build-Answers :
      (r : Registry F) (m : ModelMap V M) (ms : Dict String (List ModelCandidate)) (s : Registry F)
      (m' : ModelMap V M) (alias : String) (cs : List ModelCandidate)
      → build h config r m ms ≡ ok (s, m')
      → NodupKeys ms
      → lookup alias ms ≡ some cs
      → Answers (some cs) (get m' alias)
  unfolding build lookup get
  build-Answers r m [] s m' alias cs e u found = cc
  build-Answers r m ((a, cs0) ∷ ms) s m' alias cs e (fresh, u) found =
      let ((r1, rcs), e1, f1) = >>=-eq-ok (resolve_all h config r a cs0) _ e in
      elim (string_eq.dec a alias) [
        | yes same ↦
            let listed : cs0 ≡ cs = some-injective _ _ (ground arith) in
            let kept =
              build_keeps r1 _ ms s m' alias f1 (subst (λ k. lookup k ms ≡ none) same fresh) in
            (
              rcs,
              kept ∙ (lookup-insert a alias rcs m.aliases ∙ ground arith),
              subst (λ l. Resolves h config l rcs) listed
                  (resolve_all_resolves h config r a cs0 r1 rcs e1),
            )
        | no other ↦ build-Answers r1 _ ms s m' alias cs f1 u (ground arith)
      ]

  -- Each alias of the configuration, with distinct aliases, is answered with its candidates in
  -- order, each with the fields of its provider, and any other alias with nothing.
  pub from_config-Answers :
      (t : Tracker F) (s : Registry F) (m : ModelMap V M) (alias : String)
      → NodupKeys config.model
      → from_config h config t ≡ ok (s, m)
      → Answers (lookup alias config.model) (get m alias)
  unfolding from_config get lookup
  from_config-Answers t s m alias u e = answers (lookup alias config.model) refl
    where
      answers :
          (listed : Option (List ModelCandidate))
          → lookup alias config.model ≡ listed
          → Answers listed (get m alias)
      answers none absent = build_keeps _ _ config.model s m alias e absent
      answers (some cs) found = build-Answers _ _ config.model s m alias cs e u found
