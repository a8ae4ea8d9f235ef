-- ===== src/Startup/Tests.antt =====
-- The sample configuration, started, and the theorems where they apply.
use sturnus.Config.Loading.{file, DirEntry, unreadable}
use sturnus.F64.Fixed.{Fixed}
use sturnus.Startup.Command.{World, Cli, auto, healthcheck, main, not_loaded, probe_failed}
use sturnus.Startup.Healthcheck.{unhealthy}
use sturnus.Startup.Running.{Running}
use sturnus.Prelude.{
  ℕ_discrete, ◌==◌, Result, ok, err, ◌≡◌, refl, String, List, [], ◌∷◌, none, some, arith,
  if◌then◌else◌, list_eq, string_eq,
}
use sturnus.F64.Fixed.{fixed_f64}
use sturnus.F64.FixedLaws.{fixed-IsIeee}
use sturnus.Http.Table.{Table}
use sturnus.Config.Sample.{sample}
use sturnus.Credentials.{new_provider}
use sturnus.Server.Interleaved.{NeverPanics}
use sturnus.Server.Serving.{stay}
use sturnus.Startup.{app_state}
use sturnus.Startup.Started.{start_up_serves}
use sturnus.Startup.Sample.{env, state, started}

start_up_serves_example :
    NeverPanics env fixed-IsIeee (record { state = state; lives = []; waiting = [] })
unfolding app_state
start_up_serves_example =
    start_up_serves env some new_provider sample none none fixed-IsIeee state _
      (record { state = state; lives = []; waiting = [] }) started (omega arith, (omega arith, tt))
      stay

abbrev secrets : List (Result String (DirEntry String))
secrets =
    ok (record { file_type = ok file; file_name = some ".data"; content = ok "x" })
    ∷ ok (record { file_type = ok file; file_name = some "TOKEN"; content = ok "t\n" })
    ∷ []

abbrev world : World String String Fixed
world = record {
  load_env_file = λ path vars. ok (("TOKEN", "old") ∷ []);
  read_dir = λ path. ok secrets;
  read_to_string = λ path. if path == "config.toml" then ok "text" else err "no such file";
  expand = λ vars text. ok text;
  from_toml = λ text. ok sample;
  get_status = λ url. ok 503;
  v2 = none;
  v1 = none;
}

abbrev cli : Cli String
cli = record {
  command = none;
  config = "config.toml";
  env_file = some ".env";
  env_dir = some "/run/secrets";
  log_format = auto;
}

main_tests :
    (main env some (new_provider {P = String}) world (record cli { config = "other.toml" }) []
      ≡ some (err (not_loaded (unreadable "no such file"))))
    × (main env some
          (new_provider {P = String})
          world
          (record cli { command = some (healthcheck "4000") })
          []
        ≡ some (err (probe_failed (unhealthy "http://127.0.0.1:4000/health" 503))))
unfolding main string_eq ℕ_discrete
main_tests = (refl, refl)
