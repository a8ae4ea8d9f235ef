-- ===== src/Startup/Started.antt =====
-- The state that startup makes is ready for requests.
use sturnus.Prelude.{
  ◌*◌, ◌<◌, ◌≡◌, sym, ap, subst, String, [], Option, length, All, Eq, ok, err, >>=-eq-ok,
  ok-injective, string_eq, list_eq,
}
use sturnus.Prelude.Dict.{lookup-All}
use sturnus.Prelude.Str.{Text}
use sturnus.F64.{F64, IsIeee, u64_mod}
use sturnus.Config.{Config}
use sturnus.Config.Checks.{validate, listen_addrs}
use sturnus.Config.Validation.{validate_iff}
use sturnus.ModelMap.{ModelMap, Registry, from_config, get}
use sturnus.ModelMap.Slots.{from_config_in_tracker, from_config_registers}
use sturnus.Server.{AppState, Env}
use sturnus.Server.Ready.{IsReady}
use sturnus.Server.Serving.{Serving, Steps}
use sturnus.Server.Interleaved.{NeverPanics, never_panics}
use sturnus.System.{startup_tracker, startup-IsValid, exponent_nonneg}
use sturnus.Startup.{or_config, or_models, app_state, launch, start_up}

-- No alias has so many candidates that their weights could overflow.
abbrev pub IsModest : {V M : Type 0} → ModelMap V M → Type 0
IsModest m = All (λ (alias, cs). 1000 * length cs < u64_mod) m.aliases

or_config-ok : {A : Type 0} (r : _) (a : A) → or_config r ≡ ok a → r ≡ ok a
or_config-ok (ok x) a e = ap ok (ok-injective e)
or_config-ok (err x) a e = cc

or_models-ok : {A : Type 0} (r : _) (a : A) → or_models r ≡ ok a → r ≡ ok a
or_models-ok (ok x) a e = ap ok (ok-injective e)
or_models-ok (err x) a e = cc

module _ {A F V M S C H J R E G : Type 0} ⦃eq : Eq A⦄ ⦃d : F64 F⦄ (env : Env F V M S C H J R E)
    (parse_addr : String → Option A) (new_provider : G) (config : Config F)
    (v2 v1 : Option Text) where
  -- What a startup that succeeded has done.
  pub record Started (state : AppState F V M S C H G) (addrs : A × Option A) : Type 0 where
    pub registry : Registry F
    pub model_map : ModelMap V M
    pub accepted : validate parse_addr env.http config ≡ ok tt
    pub built : from_config env.http config (startup_tracker config) ≡ ok (registry, model_map)
    pub listens : listen_addrs parse_addr config ≡ ok addrs
    pub made : app_state env parse_addr new_provider config v2 v1 registry model_map ≡ state

  pub start_up-Started :
      (state : AppState F V M S C H G) (addrs : A × Option A)
      → start_up env parse_addr new_provider config v2 v1 ≡ ok (state, addrs)
      → Started state addrs
  unfolding start_up launch
  start_up-Started state addrs e =
      let (_, e1, f1) = >>=-eq-ok (or_config (validate parse_addr env.http config)) _ e in
      let ((registry, m), e2, f2) =
        >>=-eq-ok (or_models (from_config env.http config (startup_tracker config))) _ f1 in
      let (found, e3, f3) = >>=-eq-ok (or_config (listen_addrs parse_addr config)) _ f2 in
      let same = ok-injective f3 in
      record {
        registry = registry;
        model_map = m;
        accepted = or_config-ok _ tt e1;
        built = or_models-ok _ _ e2;
        listens =
            subst (λ a. listen_addrs parse_addr config ≡ ok a) (ap (λ r. r.1) same)
              (or_config-ok _ _ e3);
        made = ap (λ r. r.0) same;
      }

  -- Whatever configuration is accepted, the state of startup is ready for requests, unless an alias
  -- has more than 2^64 / 1000 candidates.
  pub start_up-IsReady :
      IsIeee F
      → (state : AppState F V M S C H G) (addrs : A × Option A)
      → start_up env parse_addr new_provider config v2 v1 ≡ ok (state, addrs)
      → IsModest state.model_map
      → IsReady state
  unfolding app_state get
  start_up-IsReady ieee state addrs e modest =
      let s = start_up-Started state addrs e in
      let v = (validate_iff parse_addr env.http config).0 s.accepted in
      let few = subst (λ (x : AppState F V M S C H G). IsModest x.model_map) (sym s.made) modest in
      subst IsReady s.made (record {
        tracker = startup-IsValid ieee parse_addr env.http config s.registry s.model_map v s.built;
        exploit_nonneg =
            exponent_nonneg ieee config.routing.exploit_k v.exploit_finite v.exploit_nonneg;
        listed = from_config_in_tracker env.http config _ s.registry s.model_map s.built;
        registered = λ alias cs found. (
          from_config_registers env.http config _ s.registry s.model_map alias cs s.built found,
          lookup-All (λ cs. 1000 * length cs < u64_mod) alias s.model_map.aliases cs found few,
        );
      })

  -- The program as a whole: from a configuration with which startup succeeds, and in which no alias
  -- has more than 2^64 / 1000 candidates, however requests arrive, interleave, fail, are abandoned
  -- and are answered by their upstreams, no request ever panics.
  pub start_up_serves :
      (ieee : IsIeee F) (state : AppState F V M S C H G) (addrs : A × Option A)
      (w : Serving F V M S C H G)
      → start_up env parse_addr new_provider config v2 v1 ≡ ok (state, addrs)
      → IsModest state.model_map
      → Steps env (record { state = state; lives = []; waiting = [] }) w
      → NeverPanics env ieee w
  start_up_serves ieee state addrs w e modest reached =
      never_panics env ieee state w (start_up-IsReady ieee state addrs e modest) reached
