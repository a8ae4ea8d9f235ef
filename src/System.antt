-- ===== src/System.antt =====
-- The parts together, as src/main.rs composes them: a validated configuration gives a model map and
-- a tracker on which requests are routed.
use sturnus.Prelude.{
  ◌*◌, ◌<◌, ◌≡◌, true, false, String, List, ◌∷◌, Option, some, arith, length, Eq, ok,
}
use sturnus.F64.{F64, IsIeee, fzero, ◌≼◌, u64_mod}
use sturnus.F64.Laws.{zero-IsUnit}
use sturnus.Http.{Http}
use sturnus.Candidate.{ResolvedCandidate}
use sturnus.Tracker.{LatencyMode, Tracker, new_tracker}
use sturnus.Tracker.Invariant.{IsValid, register-IsValid}
use sturnus.Config.{Config}
use sturnus.Config.Checks.{validate}
use sturnus.Config.Validation.{IsValidConfig, validate_iff}
use sturnus.ModelMap.{ModelMap, Registry, from_config, get}
use sturnus.ModelMap.Slots.{from_config_registers}
use sturnus.ModelMap.Tracking.{from_config_keeps}
use sturnus.Router.{RoundRobinState}
use sturnus.Handler.{choose}
use sturnus.Handler.Choice.{ChoosesMember, choose-total}

module _ {F : Type 0} ⦃d : F64 F⦄ (ieee : IsIeee F) where
  pub exponent_nonneg : (k : F) → d.is_finite k ≡ true → d.lt k fzero ≡ false → fzero ≼ k
  exponent_nonneg k finite h =
      ground (arith, h, ieee.lt-eq-not-le k fzero (ieee.finite_refl k finite) (zero-IsUnit ieee).0)

-- The tracker that startup makes.
unfoldable pub startup_tracker : {F : Type 0} ⦃d : F64 F⦄ → Config F → Tracker F
unfolding new_tracker
startup_tracker config = new_tracker config.routing.ewma_alpha config.routing.error_threshold

module _ {A F V M : Type 0} ⦃eq : Eq A⦄ ⦃d : F64 F⦄ (ieee : IsIeee F)
    (parse_addr : String → Option A) (h : Http V M) (config : Config F) where
  pub startup-IsValid :
      (s : Registry F) (m : ModelMap V M)
      → IsValidConfig parse_addr h config
      → from_config h config (startup_tracker config) ≡ ok (s, m)
      → IsValid s.tracker
  unfolding startup_tracker
  startup-IsValid s m v e =
      from_config_keeps h config IsValid (register-IsValid ieee) _ s m e
        (record { alpha_unit = v.alpha; slots = tt })

  -- From a configuration that `validate` accepts: once the model map is built, a request for an
  -- alias with candidates, at most 2^64 / 1000 of them, is routed to one of them, in any state of
  -- the router, for any mode and whatever affinity the client sends; nothing panics on the way.
  pub validated_config_routes :
      (s : Registry F) (m : ModelMap V M) (alias : String) (c : ResolvedCandidate V M)
      (cs : List (ResolvedCandidate V M)) (rr : RoundRobinState) (mode : LatencyMode)
      (affinity : Option (String × String))
      → validate parse_addr h config ≡ ok tt
      → from_config h config (startup_tracker config) ≡ ok (s, m)
      → get m alias ≡ some (c ∷ cs)
      → 1000 * length (c ∷ cs) < u64_mod
      → ChoosesMember
          (c ∷ cs)
          (choose alias (c ∷ cs) s.tracker rr config.routing.exploit_k mode affinity)
  validated_config_routes s m alias c cs rr mode affinity accepted built found few =
      let v = (validate_iff parse_addr h config).0 accepted in
      choose-total ieee s.tracker (startup-IsValid s m v built) config.routing.exploit_k
        (exponent_nonneg ieee config.routing.exploit_k v.exploit_finite v.exploit_nonneg) mode c cs
        (from_config_registers h config _ s m alias (c ∷ cs) built found) few alias rr affinity
