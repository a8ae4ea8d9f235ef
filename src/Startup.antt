-- ===== src/Startup.antt =====
-- src/main.rs: what `main` makes of a configuration before it serves.
-- The client of reqwest and binding the sockets are not part of it. The configuration and the texts
-- of the control group's files are arguments; Startup/Command loads the configuration.
pub mod Started
pub mod Contents
pub mod Healthcheck
pub mod Command
pub mod Reading
pub mod Running
pub mod Sample
pub mod Tests
use sturnus.Prelude.{
  ℕ, Bool, true, false, String, List, [], ◌∷◌, map, Option, none, some, any, Eq, if◌then◌else◌,
  Result, ok, err, ◌>>=◌, ◌>>◌,
}
use sturnus.Prelude.Dict.{keys, values}
use sturnus.Prelude.Str.{Text}
use sturnus.F64.{F64}
use sturnus.Candidate.{ResolvedCandidate, ProviderKind, api_key, gcp_adc, azure_openai, anthropic}
use sturnus.Router.{RoundRobinState, new_rr, register_alias}
use sturnus.Config.{Config, ConfigError, ProviderConfig, resolved_kind}
use sturnus.Config.Checks.{validate, listen_addrs}
use sturnus.Config.Budget.{buffer_budget_bytes}
use sturnus.ModelMap.{ModelMap, MapError, Registry, from_config, iter}
use sturnus.Metrics.{new_metrics, init_zero}
use sturnus.Admission.{new_budget}
use sturnus.Server.{AppState, Env}
use sturnus.System.{startup_tracker}

pub data StartError : Type 0 where
  bad_config : ConfigError → StartError
  bad_models : MapError → StartError

abbrev pub or_config : {A : Type 0} → Result ConfigError A → Result StartError A
or_config (ok a) = ok a
or_config (err e) = err (bad_config e)

abbrev pub or_models : {A : Type 0} → Result MapError A → Result StartError A
or_models (ok a) = ok a
or_models (err e) = err (bad_models e)

-- The loop over the aliases.
unfoldable pub register_all : RoundRobinState → List String → RoundRobinState
register_all rr [] = rr
register_all rr (alias ∷ rest) = register_all (register_alias rr alias) rest

-- `== ProviderKind::GcpAdc`
abbrev pub is_gcp : ProviderKind → Bool
is_gcp gcp_adc = true
is_gcp api_key = false
is_gcp (azure_openai _) = false
is_gcp (anthropic _) = false

unfoldable pub needs_gcp : {F : Type 0} → Config F → Bool
needs_gcp config = any (λ p. is_gcp (resolved_kind p)) (values config.provider)

unfoldable pub label_triples : {V M : Type 0} → ModelMap V M → List (String × String × String)
label_triples m = map (λ (alias, c). (alias, c.provider_name, c.model)) (iter m)

module _ {A F V M S C H J R E G : Type 0} ⦃eq : Eq A⦄ ⦃d : F64 F⦄ (env : Env F V M S C H J R E)
    (parse_addr : String → Option A) (new_provider : G) where
  -- The state of a model map and its tracker; `v2` and `v1` are the files of the control group.
  unfoldable pub app_state :
      Config F → Option Text → Option Text → Registry F → ModelMap V M → AppState F V M S C H G
  unfolding register_all needs_gcp label_triples
  app_state config v2 v1 registry m =
      let (budget_bytes, _) = buffer_budget_bytes config.routing v2 v1 in
      record {
        model_map = m;
        tracker = registry.tracker;
        rr_state = register_all new_rr (keys config.model);
        exploit_k = config.routing.exploit_k;
        gcp_token_provider = if needs_gcp config then some new_provider else none;
        budget = new_budget env.semaphore budget_bytes config.routing.max_body_bytes;
        metrics = init_zero env.prometheus (new_metrics env.prometheus) (label_triples m);
        shutting_down = false;
      }

  -- The state and the addresses to listen on, of a configuration that `Config::load` returned.
  unfoldable pub launch :
      Config F
      → Option Text
      → Option Text
      → Result StartError (AppState F V M S C H G × (A × Option A))
  unfolding app_state
  launch config v2 v1 = do
    (registry, m) ← or_models (from_config env.http config (startup_tracker config))
    addrs ← or_config (listen_addrs parse_addr config)
    ok (app_state config v2 v1 registry m, addrs)

  -- The same of one that is still to be validated.
  unfoldable pub start_up :
      Config F
      → Option Text
      → Option Text
      → Result StartError (AppState F V M S C H G × (A × Option A))
  unfolding launch
  start_up config v2 v1 = do or_config (validate parse_addr env.http config); launch config v2 v1
