-- ===== src/ModelMap/Startup.antt =====
-- `from_config` accepts what `validate` accepts, but for names that are no header values.
use sturnus.Prelude.{
  ◌≡◌, refl, subst, String, ◌<>◌, List, [], ◌∷◌, Option, some, arith, string_eq, Eq, true, All,
  ◌==◌, ok, >>=-eq-ok, some-injective, Result-cases, Bool-cases, inl, inr,
}
use sturnus.Prelude.Dict.{Dict, lookup, insert, contains_key, contains_key-lookup, lookup-All}
use sturnus.F64.{F64}
use sturnus.Http.{Http}
use sturnus.Candidate.{ResolvedCandidate}
use sturnus.Tracker.{Tracker}
use sturnus.Config.{ProviderConfig, ModelCandidate, Config}
use sturnus.Config.Checks.{resolved_headers, all_headers, validate}
use sturnus.Config.Validation.{IsValidProvider, KnowsProviders, IsValidConfig, validate_iff}
use sturnus.ModelMap.{ModelMap, Registry, resolve, resolve_all, build, from_config}

all_headers-lookup :
    {V M : Type 0} (h : Http V M) (ps : Dict String ProviderConfig) (parsed : Dict String M)
    (name : String) (p : ProviderConfig)
    → all_headers h ps ≡ ok parsed
    → lookup name ps ≡ some p
    → (m : M) × (resolved_headers h p ≡ ok m)
unfolding all_headers lookup
all_headers-lookup h [] parsed name p e found = cc
all_headers-lookup h ((n, q) ∷ ps) parsed name p e found =
    elim (Result-cases (resolved_headers h q)) [
      | inr (x, bad) ↦ absurd (ground arith)
      | inl (m, good) ↦
          let (later, e1, f1) = >>=-eq-ok (all_headers h ps) _ (rw good at e) in
          elim (Bool-cases (n == name)) [
            | inl same ↦ (
              m,
              subst (λ x. resolved_headers h x ≡ ok m) (some-injective _ _ (rw same at found)) good,
            )
            | inr other ↦ all_headers-lookup h ps later name p e1 (rw other at found)
          ]
    ]

module _ {V M : Type 0} (h : Http V M) where
  -- The names of a candidate as header values.
  pub record HasHeaders (c : ModelCandidate) : Type 0 where
    pub provider_value : V
    pub provider_parsed : h.header_value c.provider ≡ some provider_value
    pub affinity_value : V
    pub affinity_parsed : h.header_value (c.provider <> "/" <> c.model) ≡ some affinity_value

module _ {A F V M : Type 0} ⦃eq : Eq A⦄ ⦃d : F64 F⦄ (parse_addr : String → Option A) (h : Http V M)
    (config : Config F) where
  module _ (v : IsValidConfig parse_addr h config) where
    resolve_succeeds :
        (r : Registry F) (alias : String) (c : ModelCandidate)
        → contains_key c.provider config.provider ≡ true
        → HasHeaders h c
        → (done : Registry F × ResolvedCandidate V M) × (resolve h config r alias c ≡ ok done)
    unfolding resolve
    resolve_succeeds r alias c known named =
        let (prov, found) = contains_key-lookup c.provider config.provider known in
        let valid = lookup-All IsValidProvider c.provider config.provider prov found v.providers in
        let (headers, parsed) =
          all_headers-lookup h config.provider v.headers c.provider prov v.headers_ok found in
        elim (Result-cases (resolve h config r alias c)) [
          | inl done ↦ done
          | inr (x, bad) ↦ absurd (
              ground (
                arith,
                rw (found, valid.resolved, named.provider_parsed, named.affinity_parsed, parsed) at
                    bad,
              ))
        ]

    resolve_all_succeeds :
        (r : Registry F) (alias : String) (cs : List ModelCandidate)
        → KnowsProviders config.provider (alias, cs)
        → All (HasHeaders h) cs
        → (done : Registry F × List (ResolvedCandidate V M)) × (resolve_all h config r alias cs
            ≡ ok done)
    unfolding resolve_all
    resolve_all_succeeds r alias [] known named = ((r, []), refl)
    resolve_all_succeeds r alias (c ∷ cs) (known, rest) (named, others) =
        let ((r1, rc), e1) = resolve_succeeds r alias c known named in
        let ((r2, later), e2) = resolve_all_succeeds r1 alias cs rest others in
        ((r2, rc ∷ later), rw (e1, e2) refl)

    build_succeeds :
        (r : Registry F) (m : ModelMap V M) (ms : Dict String (List ModelCandidate))
        → All (KnowsProviders config.provider) ms
        → All (λ (alias, cs). All (HasHeaders h) cs) ms
        → (done : Registry F × ModelMap V M) × (build h config r m ms ≡ ok done)
    unfolding build
    build_succeeds r m [] known named = ((r, m), refl)
    build_succeeds r m ((alias, cs) ∷ ms) (known, rest) (named, others) =
        let ((r1, rcs), e1) = resolve_all_succeeds r alias cs known named in
        let (last, e2) =
          build_succeeds r1 (record { aliases = insert alias rcs m.aliases }) ms rest others in
        (last, rw e1 e2)

  -- The model map is built from every configuration that `validate` accepts, provided that the
  -- names of its candidates are header values.
  pub from_config_succeeds :
      (t : Tracker F)
      → validate parse_addr h config ≡ ok tt
      → All (λ (alias, cs). All (HasHeaders h) cs) config.model
      → (done : Registry F × ModelMap V M) × (from_config h config t ≡ ok done)
  unfolding from_config
  from_config_succeeds t e named =
      let v = (validate_iff parse_addr h config).0 e in
      build_succeeds v _ _ config.model v.aliases named
