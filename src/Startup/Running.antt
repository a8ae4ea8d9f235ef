-- ===== src/Startup/Running.antt =====
-- What has happened when `main` serves.
use sturnus.Prelude.{string_eq, ◌≡◌, String, Option, none, Eq, ok}
use sturnus.F64.{F64}
use sturnus.Config.{Config}
use sturnus.Config.Loading.{Environment}
use sturnus.Config.Validation.{IsValidConfig}
use sturnus.Server.{AppState, Env}
use sturnus.Startup.{start_up}
use sturnus.Startup.Reading.{Loaded, Overlays}
use sturnus.Startup.Command.{Command, Cli, World, read_env_file}

module _ {A F V M S C H J R E P G : Type 0} ⦃eq : Eq A⦄ ⦃d : F64 F⦄ (env : Env F V M S C H J R E)
    (parse_addr : String → Option A) (new_provider : G) (w : World P E F) where
  pub record Running (cli : Cli P) (vars : Environment) (state : AppState F V M S C H G)
      (addrs : A × Option A) : Type 0 where
    pub before : Environment
    pub after : Environment
    pub config : Config F
    pub no_command : cli.command ≡ none
    pub file_first : read_env_file w cli.env_file vars ≡ ok before
    pub dir_over : Overlays w cli.env_dir before after
    pub loaded :
        Loaded parse_addr env.http (w.expand after) w.from_toml (w.read_to_string cli.config) config
    pub valid : IsValidConfig parse_addr env.http config
    pub started : start_up env parse_addr new_provider config w.v2 w.v1 ≡ ok (state, addrs)
