-- ===== src/ModelMap/Resolving.antt =====
-- `resolve`: each field of a candidate, and its slot in the registry.
use sturnus.Prelude.{
  ℕ, ◌≡◌, refl, sym, ap, ◌∙◌, subst, String, ◌<>◌, List, [], ◌∷◌, none, some, arith, if◌then◌else◌,
  string_eq, pair_eq, ok, >>=-eq-ok, ok-injective, Result-cases, Option-cases, inl, inr, All,
}
use sturnus.Prelude.Dict.{lookup}
use sturnus.F64.{F64}
use sturnus.Http.{Http}
use sturnus.Candidate.{ResolvedCandidate}
use sturnus.Config.{ProviderConfig, ModelCandidate, Config, resolved_base_url, resolved_kind}
use sturnus.Config.Checks.{resolved_headers, opts_in}
use sturnus.ModelMap.{Registry, slot_for, resolve, resolve_all}
use sturnus.ModelMap.Dedup.{
  Registered, IsRegistry, Extends, Extends-refl, Extends-trans, slot_for_lem,
}

module _ {F V M : Type 0} ⦃d : F64 F⦄ (h : Http V M) (config : Config F) where
  -- A resolved candidate says of each field where it comes from.
  pub record IsResolved (c : ModelCandidate) (rc : ResolvedCandidate V M) : Type 0 where
    pub prov : ProviderConfig
    pub provider_found : lookup c.provider config.provider ≡ some prov
    pub provider_name : rc.provider_name ≡ c.provider
    pub model : rc.model ≡ c.model
    pub base_url : resolved_base_url prov ≡ some rc.base_url
    pub api_key : rc.api_key ≡ prov.api_key
    pub kind : rc.kind ≡ resolved_kind prov
    pub provider_header : h.header_value c.provider ≡ some rc.provider_header
    pub affinity_header : h.header_value (c.provider <> "/" <> c.model) ≡ some rc.affinity_header
    pub labels :
        rc.attribution_labels ≡ (if opts_in prov.vertex_ai then some config.attribution else none)
    pub extra_headers : resolved_headers h prov ≡ ok rc.extra_headers

  pub record Resolution (r : Registry F) (c : ModelCandidate) (s : Registry F)
      (rc : ResolvedCandidate V M) : Type 0 where
    pub fields : IsResolved c rc
    pub slot : slot_for r (c.provider, c.model) ≡ (s, rc.stats_index)

  pub resolve_ok :
      (r : Registry F) (alias : String) (c : ModelCandidate) (s : Registry F)
      (rc : ResolvedCandidate V M)
      → resolve h config r alias c ≡ ok (s, rc)
      → Resolution r c s rc
  unfolding resolve
  resolve_ok r alias c s rc e = elim (Option-cases (lookup c.provider config.provider)) [
    | inl bad ↦ absurd (ground arith)
    | inr (prov, found) ↦ elim (Option-cases (resolved_base_url prov)) [
      | inl bad ↦ absurd (ground arith)
      | inr (url, based) ↦ elim (Option-cases (h.header_value c.provider)) [
        | inl bad ↦ absurd (ground arith)
        | inr (name, named) ↦ elim (Option-cases (h.header_value (c.provider <> "/" <> c.model))) [
          | inl bad ↦ absurd (ground arith)
          | inr (affine, affined) ↦ elim (Result-cases (resolved_headers h prov)) [
            | inr (bad, failed) ↦ absurd (ground arith)
            | inl (headers, parsed) ↦
                let same = ok-injective (rw (found, based, named, affined, parsed) at e) in
                subst (λ (p : Registry F × ResolvedCandidate V M). Resolution r c p.0 p.1) same
                  (record {
                    fields = record {
                      prov = prov;
                      provider_found = found;
                      provider_name = refl;
                      model = refl;
                      base_url = based;
                      api_key = refl;
                      kind = refl;
                      provider_header = named;
                      affinity_header = affined;
                      labels = refl;
                      extra_headers = parsed;
                    };
                    slot = refl;
                  })
          ]
        ]
      ]
    ]
  ]

  -- The candidate's slot is that of its provider and model.
  abbrev pub Held : Registry F → ResolvedCandidate V M → Type 0
  Held s rc = Registered s (rc.provider_name, rc.model) rc.stats_index

  resolve-Held :
      (r : Registry F) (alias : String) (c : ModelCandidate) (s : Registry F)
      (rc : ResolvedCandidate V M)
      → resolve h config r alias c ≡ ok (s, rc)
      → IsRegistry r
      → IsRegistry s × Extends r s × Held s rc
  resolve-Held r alias c s rc e v =
      let done = resolve_ok r alias c s rc e in
      let key =
        ap (λ (name : String). (name, rc.model)) done.fields.provider_name
        ∙ ap (λ (model : String). (c.provider, model)) done.fields.model in
      subst (λ k. IsRegistry s × Extends r s × Registered s k rc.stats_index) (sym key)
        (subst
          (λ (p : Registry F × ℕ).
            IsRegistry p.0 × Extends r p.0 × Registered p.0 (c.provider, c.model) p.1)
          done.slot (slot_for_lem r (c.provider, c.model) v))

  -- Candidate for candidate, in order.
  pub data Resolves : List ModelCandidate → List (ResolvedCandidate V M) → Type 0 where
    done : Resolves [] []
    next :
        {c : ModelCandidate} {cs : List ModelCandidate} {rc : ResolvedCandidate V M}
        {rcs : List (ResolvedCandidate V M)}
        → IsResolved c rc
        → Resolves cs rcs
        → Resolves (c ∷ cs) (rc ∷ rcs)

  pub resolve_all-Held :
      (r : Registry F) (alias : String) (cs : List ModelCandidate) (s : Registry F)
      (rcs : List (ResolvedCandidate V M))
      → resolve_all h config r alias cs ≡ ok (s, rcs)
      → IsRegistry r
      → IsRegistry s × Extends r s × All (Held s) rcs
  unfolding resolve_all
  resolve_all-Held r alias [] s rcs e v =
      subst
        (λ (p : Registry F × List (ResolvedCandidate V M)).
          IsRegistry p.0 × Extends r p.0 × All (Held p.0) p.1)
        (ok-injective e) (v, Extends-refl r, tt)
  resolve_all-Held r alias (c ∷ cs) s rcs e v =
      let ((r1, rc), e1, f1) = >>=-eq-ok (resolve h config r alias c) _ e in
      let ((r2, later), e2, f2) = >>=-eq-ok (resolve_all h config r1 alias cs) _ f1 in
      let (v1, x1, held) = resolve-Held r alias c r1 rc e1 v in
      let (v2, x2, rest) = resolve_all-Held r1 alias cs r2 later e2 v1 in
      subst
        (λ (p : Registry F × List (ResolvedCandidate V M)).
          IsRegistry p.0 × Extends r p.0 × All (Held p.0) p.1)
        (ok-injective f2) (v2, Extends-trans r r1 r2 x1 x2, (x2.kept _ _ held, rest))

  pub resolve_all_resolves :
      (r : Registry F) (alias : String) (cs : List ModelCandidate) (s : Registry F)
      (rcs : List (ResolvedCandidate V M))
      → resolve_all h config r alias cs ≡ ok (s, rcs)
      → Resolves cs rcs
  unfolding resolve_all
  resolve_all_resolves r alias [] s rcs e =
      subst (λ (p : Registry F × List (ResolvedCandidate V M)). Resolves [] p.1) (ok-injective e)
        done
  resolve_all_resolves r alias (c ∷ cs) s rcs e =
      let ((r1, rc), e1, f1) = >>=-eq-ok (resolve h config r alias c) _ e in
      let ((r2, later), e2, f2) = >>=-eq-ok (resolve_all h config r1 alias cs) _ f1 in
      subst (λ (p : Registry F × List (ResolvedCandidate V M)). Resolves (c ∷ cs) p.1)
        (ok-injective f2)
        (next (resolve_ok r alias c r1 rc e1).fields (resolve_all_resolves r1 alias cs r2 later e2))
