-- ===== src/Config/Defaults.antt =====
-- src/config.rs: the values that a configuration leaves out.
use sturnus.Prelude.{ℕ, ◌*◌, ◌≤◌, ◌≡◌, refl, ap, ◌∙◌, true, false, not, String, none, arith}
use sturnus.F64.{F64, IsIeee, in_unit, fzero}
use sturnus.Router.{exploit_k}
use sturnus.Admission.{u32_max}
use sturnus.Config.{RoutingConfig}
use sturnus.Config.Budget.{buffer_budget_bytes, cgroup_memory_limit_from}

abbrev pub default_listen : String
default_listen = "127.0.0.1:4000"

-- `GoogleAiConfig::default_api_version` and `AnthropicConfig::default_version`
abbrev pub default_api_version : String
default_api_version = "v1beta"

abbrev pub default_version : String
default_version = "2023-06-01"

unfoldable pub default_routing : {F : Type 0} ⦃d : F64 F⦄ → RoutingConfig F
default_routing ⦃d⦄ = record {
  ewma_alpha = d.decimal 3 1;
  exploit_k = exploit_k;
  error_threshold = d.decimal 5 1;
  connect_timeout_secs = 10;
  read_timeout_secs = 60;
  max_body_bytes = 32 * 1024 * 1024;
  max_buffered_bytes = none;
  shutdown_timeout_secs = 30;
}

module _ {F : Type 0} ⦃d : F64 F⦄ where
  -- The default routing passes the tests of `validate`; without a limit of the control group it makes
  -- a budget of 128 MB, which is at least a body of the default cap, and within the bounds that the
  -- permits of request bodies need.
  pub default_routing_lem :
      IsIeee F
      → (in_unit (default_routing {F = F}).ewma_alpha ≡ true)
        × (d.is_finite (default_routing {F = F}).exploit_k ≡ true)
        × (d.lt (default_routing {F = F}).exploit_k fzero ≡ false)
        × (in_unit (default_routing {F = F}).error_threshold ≡ true)
        × ((buffer_budget_bytes (default_routing {F = F}) none none).0 ≡ 134_217_728)
        × ((default_routing {F = F}).max_body_bytes ≤ 134_217_728)
        × ((default_routing {F = F}).max_body_bytes ≤ u32_max * 1024)
  unfolding default_routing buffer_budget_bytes cgroup_memory_limit_from
  default_routing_lem ieee = (
    unit 3 (omega arith),
    ieee.decimal_finite 3 0 (omega arith),
    ieee.lt-eq-not-le (d.decimal 3 0) fzero (ieee.decimal_mono 3 0 3 0 (omega arith))
          (ieee.decimal_mono 0 0 0 0 (omega arith))
        ∙ ap not (ieee.decimal_mono 0 0 3 0 (omega arith)),
    unit 5 (omega arith),
    refl,
    omega arith,
    omega arith,
  )
    where
      unit : (m : ℕ) → m ≤ 10 → in_unit (d.decimal m 1) ≡ true
      unit m h =
          let low = ieee.decimal_mono 0 0 m 1 (omega arith) in
          let high = ieee.decimal_mono m 1 1 0 (omega (arith, h)) in rw (low, high) refl
