-- ===== src/Config/Checks.antt =====
-- src/config.rs: the parsed headers of the providers, the listen addresses and `validate`.
use text.Mathlib.Text.{starts_with}
use sturnus.Prelude.{
  ℕ, ◌+◌, Bool, true, false, not, ◌&&◌, ◌||◌, String, List, [], ◌∷◌, Option, none, some, is_some,
  if◌then◌else◌, ltb, ◌==◌, Eq, string_eq, Result, ok, err, ◌>>=◌, ◌>>◌, bail_if, ok_or, any,
}
use sturnus.Prelude.Dict.{Dict, contains_key, values}
use sturnus.F64.{F64, in_unit, fzero}
use sturnus.Http.{Http}
use sturnus.Headers.{is_reserved_request_header}
use sturnus.Config.{
  ProviderConfig, VertexAiConfig, ModelCandidate, Config, HeaderError, invalid_name, reserved,
  invalid_value, set_twice, ConfigError, invalid_listen, invalid_metrics_listen, same_address,
  ewma_alpha_range, exploit_k_range, error_threshold_range, multiple_shorthands, missing_base_url,
  invalid_base_url, in_provider, unknown_provider, attribution_empty, resolved_base_url,
}

-- `map_err(|e| anyhow!("provider '{name}': {e}"))`
abbrev pub for_provider : {A : Type 0} → String → Result HeaderError A → Result ConfigError A
for_provider name (ok a) = ok a
for_provider name (err e) = err (in_provider name e)

module _ {V M : Type 0} (h : Http V M) where
  -- The fold over the configured headers.
  unfoldable pub headers_from : M → Dict String String → Result HeaderError M
  unfolding is_reserved_request_header
  headers_from map [] = ok map
  headers_from map ((name, value) ∷ rest) = do
    name' ← ok_or (h.header_name name) (invalid_name name)
    bail_if (is_reserved_request_header name') (reserved name')
    value' ← ok_or (h.header_value value) (invalid_value name')
    bail_if (is_some (h.insert name' value' map).1) (set_twice name')
    headers_from (h.insert name' value' map).0 rest

  -- `ProviderConfig::resolved_headers`
  unfoldable pub resolved_headers : ProviderConfig → Result HeaderError M
  unfolding headers_from
  resolved_headers p = headers_from h.no_headers p.headers

  -- `Config::resolved_headers`
  unfoldable pub all_headers : Dict String ProviderConfig → Result ConfigError (Dict String M)
  unfolding resolved_headers
  all_headers [] = ok []
  all_headers ((name, p) ∷ rest) = do
    headers ← for_provider name (resolved_headers p)
    later ← all_headers rest
    ok ((name, headers) ∷ later)

abbrev pub count_true : List Bool → ℕ
count_true [] = 0
count_true (b ∷ bs) = (if b then 1 else 0) + count_true bs

unfoldable pub shorthand_count : ProviderConfig → ℕ
shorthand_count p =
    count_true (
      is_some p.vertex_ai ∷ is_some p.azure_openai ∷ is_some p.google_ai ∷ is_some p.anthropic ∷ [])

unfoldable pub is_http : String → Bool
is_http url = starts_with url "http://" || starts_with url "https://"

-- The loop of `validate` over the providers.
unfoldable pub check_providers : Dict String ProviderConfig → Result ConfigError (Unit {0})
check_providers [] = ok tt
check_providers ((name, p) ∷ rest) = do
  bail_if (ltb 1 (shorthand_count p)) (multiple_shorthands name)
  base_url ← ok_or (resolved_base_url p) (missing_base_url name)
  bail_if (not (is_http base_url)) (invalid_base_url name base_url)
  check_providers rest

unfoldable pub check_candidates :
    Dict String ProviderConfig → String → List ModelCandidate → Result ConfigError (Unit {0})
check_candidates providers alias [] = ok tt
check_candidates providers alias (c ∷ cs) = do
  bail_if (not (contains_key c.provider providers)) (unknown_provider alias c.provider)
  check_candidates providers alias cs

-- The loop over the aliases.
unfoldable pub check_models :
    Dict String ProviderConfig → Dict String (List ModelCandidate) → Result ConfigError (Unit {0})
unfolding check_candidates
check_models providers [] = ok tt
check_models providers ((alias, candidates) ∷ rest) = do
  check_candidates providers alias candidates
  check_models providers rest

-- `vertex_ai.as_ref().map(|v| v.attribution).unwrap_or(false)`
abbrev pub opts_in : Option VertexAiConfig → Bool
opts_in none = false
opts_in (some v) = v.attribution

abbrev pub is_empty : {A : Type 0} → List A → Bool
is_empty [] = true
is_empty (_ ∷ _) = false

module _ {A : Type 0} ⦃e : Eq A⦄ (parse_addr : String → Option A) where
  -- The second address, which must differ from the first.
  unfoldable pub metrics_addr : A → Option String → Result ConfigError (Option A)
  metrics_addr main none = ok none
  metrics_addr main (some ml) = do
    addr ← ok_or (parse_addr ml) (invalid_metrics_listen ml)
    bail_if (addr == main) same_address
    ok (some addr)

  unfoldable pub listen_addrs : {F : Type 0} → Config F → Result ConfigError (A × Option A)
  unfolding metrics_addr
  listen_addrs c = do
    main ← ok_or (parse_addr c.listen) (invalid_listen c.listen)
    metrics ← metrics_addr main c.metrics_listen
    ok (main, metrics)

  module _ {F V M : Type 0} ⦃d : F64 F⦄ (h : Http V M) where
    unfoldable pub validate : Config F → Result ConfigError (Unit {0})
    validate c = do
      listen_addrs c
      bail_if (not (in_unit c.routing.ewma_alpha)) ewma_alpha_range
      bail_if (not (d.is_finite c.routing.exploit_k) || d.lt c.routing.exploit_k fzero)
          exploit_k_range
      bail_if (not (in_unit c.routing.error_threshold)) error_threshold_range
      check_providers c.provider
      all_headers h c.provider
      check_models c.provider c.model
      bail_if (any (λ p. opts_in p.vertex_ai) (values c.provider) && is_empty c.attribution)
          attribution_empty
