-- ===== src/Startup/Command.antt =====
-- src/main.rs: the command line, and `main` up to the state that it serves. Files, the parsers and the
-- answer to a health probe are a record of functions; logging and the banner are left out.
use sturnus.Prelude.{
  ℕ, Bool, true, false, not, String, List, Option, none, some, Eq, Result, ok, err, ◌>>=◌,
}
use sturnus.Prelude.Partial
use sturnus.Prelude.Str.{Text}
use sturnus.F64.{F64}
use sturnus.Config.{Config}
use sturnus.Config.Loading.{Environment, DirEntry, DirError, LoadError, load_env_dir, load}
use sturnus.Server.{AppState, Env}
use sturnus.Startup.{StartError, launch}
use sturnus.Startup.Healthcheck.{ProbeError, run_healthcheck}

pub data LogFormat : Type 0 where
  auto pretty json : LogFormat

-- The port as it is shown.
pub data Command : Type 0 where
  healthcheck : (port : String) → Command

pub record Cli (P : Type 0) : Type 0 where
  pub command : Option Command
  pub config : P
  pub env_file : Option P
  pub env_dir : Option P
  pub log_format : LogFormat

-- Whether `init_logging` writes JSON.
unfoldable pub json_logs : LogFormat → (terminal : Bool) → Bool
json_logs auto terminal = not terminal
json_logs pretty terminal = false
json_logs json terminal = true

-- What surrounds the program: `load_env_file` is that of dotenvy, which does not overwrite, and `v2`
-- and `v1` are the files of the control group.
pub record World (P E F : Type 0) : Type 0 where
  pub load_env_file : P → Environment → Result E Environment
  pub read_dir : P → Result E (List (Result E (DirEntry E)))
  pub read_to_string : P → Result E String
  pub expand : Environment → String → Result E String
  pub from_toml : String → Result E (Config F)
  pub get_status : String → Result E ℕ
  pub v2 : Option Text
  pub v1 : Option Text

pub data MainError (E : Type 0) : Type 0 where
  probe_failed : ProbeError E → MainError E
  no_env_file : E → MainError E
  no_env_dir : DirError E → MainError E
  not_loaded : LoadError E → MainError E
  not_started : StartError → MainError E

abbrev pub failing : {A X E : Type 0} → (X → MainError E) → Result X A → Result (MainError E) A
failing wrap (ok a) = ok a
failing wrap (err e) = err (wrap e)

-- How `main` goes on: it ends after a health probe, or it serves.
pub data Outcome (T : Type 0) : Type 0 where
  healthy : Outcome T
  serving : T → Outcome T

abbrev pub probed :
    {E T : Type 0} → Result (ProbeError E) (Unit {0}) → Result (MainError E) (Outcome T)
probed (ok _) = ok healthy
probed (err e) = err (probe_failed e)

abbrev pub dir_read :
    {E : Type 0} → Environment → Result (DirError E) (Unit {0}) → Result (MainError E) Environment
dir_read vars (ok _) = ok vars
dir_read vars (err e) = err (no_env_dir e)

module _ {P E F : Type 0} (w : World P E F) where
  unfoldable pub read_env_file : Option P → Environment → Result (MainError E) Environment
  read_env_file none env = ok env
  read_env_file (some path) env = failing no_env_file (w.load_env_file path env)

  unfoldable pub read_env_dir : Option P → Environment → Option (Result (MainError E) Environment)
  unfolding load_env_dir
  read_env_dir none env = some (ok env)
  read_env_dir (some dir) env =
      Partial.◌>>=◌ (load_env_dir env (w.read_dir dir)) (λ (env', r). some (dir_read env' r))

module _ {A F V M S C H J R E P G : Type 0} ⦃eq : Eq A⦄ ⦃d : F64 F⦄ (env : Env F V M S C H J R E)
    (parse_addr : String → Option A) (new_provider : G) (w : World P E F) where
  -- From `Config::load` on.
  unfoldable pub load_and_launch :
      P → Environment → Result (MainError E) (AppState F V M S C H G × (A × Option A))
  unfolding load launch
  load_and_launch path vars = do
    config ←
        failing not_loaded
          (load parse_addr env.http (w.expand vars) w.from_toml (w.read_to_string path))
    failing not_started (launch env parse_addr new_provider config w.v2 w.v1)

  abbrev pub served :
      Result (MainError E) (AppState F V M S C H G × (A × Option A))
      → Result (MainError E) (Outcome (AppState F V M S C H G × (A × Option A)))
  served (ok t) = ok (serving t)
  served (err e) = err e

  -- What follows the directory of secrets.
  abbrev pub with_vars :
      P
      → Result (MainError E) Environment
      → Result (MainError E) (Outcome (AppState F V M S C H G × (A × Option A)))
  with_vars path (err e) = err e
  with_vars path (ok vars) = served (load_and_launch path vars)

  -- What follows the `.env` file.
  abbrev pub with_file :
      Option P
      → P
      → Result (MainError E) Environment
      → Option (Result (MainError E) (Outcome (AppState F V M S C H G × (A × Option A))))
  with_file dir path (err e) = some (err e)
  with_file dir path (ok vars) =
      Partial.◌>>=◌ (read_env_dir w dir vars) (λ r. some (with_vars path r))

  abbrev pub run_command :
      Option Command
      → Cli P
      → Environment
      → Option (Result (MainError E) (Outcome (AppState F V M S C H G × (A × Option A))))
  run_command (some (healthcheck port)) cli vars = some (probed (run_healthcheck port w.get_status))
  run_command none cli vars = with_file cli.env_dir cli.config (read_env_file w cli.env_file vars)

  -- There is no result where `set_var` panics.
  unfoldable pub main :
      Cli P
      → Environment
      → Option (Result (MainError E) (Outcome (AppState F V M S C H G × (A × Option A))))
  unfolding load_and_launch read_env_file read_env_dir run_healthcheck
  main cli vars = run_command cli.command cli vars
