-- ===== src/Config/Validation.antt =====
-- `validate` accepts exactly the configurations that its checks describe.
use sturnus.Prelude.{
  ◌≤◌, ◌≡◌, refl, sym, ◌∙◌, ◌↔◌, true, false, ◌&&◌, String, List, [], ◌∷◌, Option, some, arith, Eq,
  string_eq, ok, Result-cases, Option-cases, some-injective, inl, inr, All, any,
}
use sturnus.Prelude.Dict.{Dict, contains_key, values}
use sturnus.F64.{F64, in_unit, fzero}
use sturnus.F64.Laws.{IsUnit, IsFinite}
use sturnus.Http.{Http}
use sturnus.Config.{ProviderConfig, ModelCandidate, Config, resolved_base_url}
use sturnus.Config.Addresses.{OtherAddr, metrics_addr_iff, listen_addrs_ok, listen_addrs_of}
use sturnus.Config.Checks.{
  all_headers, shorthand_count, is_http, check_providers, check_candidates, check_models,
  listen_addrs, opts_in, is_empty, validate,
}

pub record IsValidProvider (p : ProviderConfig) : Type 0 where
  pub at_most_one : shorthand_count p ≤ 1
  pub base_url : String
  pub resolved : resolved_base_url p ≡ some base_url
  pub http : is_http base_url ≡ true

abbrev pub KnowsProviders : Dict String ProviderConfig → String × List ModelCandidate → Type 0
KnowsProviders providers (alias, cs) = All (λ c. contains_key c.provider providers ≡ true) cs

check_providers_nil : check_providers [] ≡ ok tt
unfolding check_providers
check_providers_nil = refl

check_provider_iff :
    (name : String) (p : ProviderConfig) (rest : Dict String ProviderConfig)
    → (check_providers ((name, p) ∷ rest) ≡ ok tt
        → IsValidProvider p × check_providers rest ≡ ok tt)
      × (IsValidProvider p
          → check_providers rest ≡ ok tt
          → check_providers ((name, p) ∷ rest) ≡ ok tt)
unfolding check_providers
check_provider_iff name p rest = elim (Option-cases (resolved_base_url p)) [
  | inl missing ↦ (λ e. absurd (ground arith), λ v c. absurd (ground (arith, v.resolved)))
  | inr (url, found) ↦ (
    λ e. (
      record { at_most_one = ground arith; base_url = url; resolved = found; http = ground arith },
      ground arith,
    ),
    λ v c.
        let same = some-injective _ _ (sym v.resolved ∙ found) in
        ground (arith, v.at_most_one, v.http, same),
  )
]

check_providers_iff :
    (ps : Dict String ProviderConfig)
    → (check_providers ps ≡ ok tt → All (λ (name, p). IsValidProvider p) ps)
      × (All (λ (name, p). IsValidProvider p) ps → check_providers ps ≡ ok tt)
check_providers_iff [] = (λ e. tt, λ v. check_providers_nil)
check_providers_iff ((name, p) ∷ ps) =
    let step = check_provider_iff name p ps in
    let rest = check_providers_iff ps in
    (λ e. ((step.0 e).0, rest.0 (step.0 e).1), λ v. step.1 v.0 (rest.1 v.1))

check_candidates_iff :
    (providers : Dict String ProviderConfig) (alias : String) (cs : List ModelCandidate)
    → (check_candidates providers alias cs ≡ ok tt → KnowsProviders providers (alias, cs))
      × (KnowsProviders providers (alias, cs) → check_candidates providers alias cs ≡ ok tt)
unfolding check_candidates
check_candidates_iff providers alias [] = (λ e. tt, λ v. refl)
check_candidates_iff providers alias (c ∷ cs) =
    ground (arith, check_candidates_iff providers alias cs)

check_models_iff :
    (providers : Dict String ProviderConfig) (ms : Dict String (List ModelCandidate))
    → (check_models providers ms ≡ ok tt → All (KnowsProviders providers) ms)
      × (All (KnowsProviders providers) ms → check_models providers ms ≡ ok tt)
unfolding check_models
check_models_iff providers [] = (λ e. tt, λ v. refl)
check_models_iff providers ((alias, cs) ∷ ms) =
    ground (arith, check_candidates_iff providers alias cs, check_models_iff providers ms)

module _ {A F V M : Type 0} ⦃eq : Eq A⦄ ⦃d : F64 F⦄ (parse_addr : String → Option A)
    (h : Http V M) where
  pub record IsValidConfig (c : Config F) : Type 0 where
    pub main : A
    pub main_parsed : parse_addr c.listen ≡ some main
    pub metrics : OtherAddr parse_addr main c.metrics_listen
    pub alpha : IsUnit c.routing.ewma_alpha
    pub exploit_finite : IsFinite c.routing.exploit_k
    pub exploit_nonneg : d.lt c.routing.exploit_k fzero ≡ false
    pub threshold : IsUnit c.routing.error_threshold
    pub providers : All (λ (name, p). IsValidProvider p) c.provider
    pub headers : Dict String M
    pub headers_ok : all_headers h c.provider ≡ ok headers
    pub aliases : All (KnowsProviders c.provider) c.model
    pub attributed :
        any (λ p. opts_in p.vertex_ai) (values c.provider) ≡ true → is_empty c.attribution ≡ false

  in_unit-IsUnit : (x : F) → (in_unit x ≡ true) ↔ IsUnit x
  in_unit-IsUnit x = ground arith

  -- What each step of `validate` returned.
  record Steps (c : Config F) : Type 0 where
    addrs : A × Option A
    listens : listen_addrs parse_addr c ≡ ok addrs
    alpha_in : in_unit c.routing.ewma_alpha ≡ true
    finite : IsFinite c.routing.exploit_k
    nonneg : d.lt c.routing.exploit_k fzero ≡ false
    threshold_in : in_unit c.routing.error_threshold ≡ true
    providers_ok : check_providers c.provider ≡ ok tt
    parsed : Dict String M
    parsed_ok : all_headers h c.provider ≡ ok parsed
    models_ok : check_models c.provider c.model ≡ ok tt
    attribution_ok :
        (any (λ p. opts_in p.vertex_ai) (values c.provider) && is_empty c.attribution) ≡ false

  validate-Steps : (c : Config F) → validate parse_addr h c ≡ ok tt → Steps c
  unfolding validate
  validate-Steps c e = elim (Result-cases (listen_addrs parse_addr c)) [
    | inr (x, bad) ↦ absurd (ground arith)
    | inl (addrs, listens) ↦ elim (Result-cases (all_headers h c.provider)) [
      | inr (x, bad) ↦ absurd (ground arith)
      | inl (parsed, parsed_ok) ↦ record {
        addrs = addrs;
        listens = listens;
        parsed = parsed;
        parsed_ok = parsed_ok;
        alpha_in = ground arith;
        finite = ground arith;
        nonneg = ground arith;
        threshold_in = ground arith;
        providers_ok = ground arith;
        models_ok = ground arith;
        attribution_ok = ground arith;
      }
    ]
  ]

  Steps-validate : (c : Config F) → Steps c → validate parse_addr h c ≡ ok tt
  unfolding validate
  Steps-validate c s = ground (
    arith, s.listens, s.alpha_in, s.finite, s.nonneg, s.threshold_in, s.providers_ok, s.parsed_ok,
    s.models_ok, s.attribution_ok,
  )

  -- `validate` accepts a configuration exactly when it is well-formed: its addresses parse and
  -- differ, its factors are in range, each provider has one source for its URL and an HTTP URL,
  -- its headers are accepted, each alias names known providers, and an attribution that a provider
  -- asks for is there.
  pub validate_iff : (c : Config F) → (validate parse_addr h c ≡ ok tt) ↔ IsValidConfig c
  validate_iff c = (
    λ e.
        let s = validate-Steps c e in
        let (main, parsed, metrics) = listen_addrs_ok parse_addr c s.addrs s.listens in
        record {
          main = main;
          main_parsed = parsed;
          metrics = (metrics_addr_iff parse_addr main c.metrics_listen).0 metrics;
          alpha = (in_unit-IsUnit _).0 s.alpha_in;
          exploit_finite = s.finite;
          exploit_nonneg = s.nonneg;
          threshold = (in_unit-IsUnit _).0 s.threshold_in;
          providers = (check_providers_iff c.provider).0 s.providers_ok;
          headers = s.parsed;
          headers_ok = s.parsed_ok;
          aliases = (check_models_iff c.provider c.model).0 s.models_ok;
          attributed = ground (arith, s.attribution_ok);
        },
    λ v.
        let (o, q) = (metrics_addr_iff parse_addr v.main c.metrics_listen).1 v.metrics in
        Steps-validate c (record {
          addrs = (v.main, o);
          listens = listen_addrs_of parse_addr c v.main o v.main_parsed q;
          alpha_in = (in_unit-IsUnit _).1 v.alpha;
          finite = v.exploit_finite;
          nonneg = v.exploit_nonneg;
          threshold_in = (in_unit-IsUnit _).1 v.threshold;
          providers_ok = (check_providers_iff c.provider).1 v.providers;
          parsed = v.headers;
          parsed_ok = v.headers_ok;
          models_ok = (check_models_iff c.provider c.model).1 v.aliases;
          attribution_ok = ground (arith, v.attributed);
        }),
  )
