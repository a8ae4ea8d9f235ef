-- ===== src/Config/Loading.antt =====
-- src/config.rs: `Config::load` and `load_env_dir`, over the files as arguments.
-- A directory is what its iterator hands out; `set_var` panics on a name or a value that the
-- environment cannot hold, and then there is no result.
use text.Mathlib.Text.{starts_with}
use sturnus.Prelude.{
  ℕ, Bool, false, ◌||◌, String, List, [], ◌∷◌, Option, none, some, if◌then◌else◌, ◌==◌, string_eq,
  nat_eq, Eq, Result, ok, err, ◌>>=◌, ◌>>◌,
}
use sturnus.Prelude.Partial
use sturnus.Prelude.Dict.{Dict, insert}
use sturnus.Prelude.Str.{is_char}
use sturnus.F64.{F64}
use sturnus.Http.{Http}
use sturnus.Config.{Config, ConfigError}
use sturnus.Config.Checks.{validate}

pub data FileType : Type 0 where
  file symlink other : FileType

-- An entry: its name if it is UTF-8, and its contents.
pub record DirEntry (E : Type 0) : Type 0 where
  pub file_type : Result E FileType
  pub file_name : Option String
  pub content : Result E String

pub data DirError (E : Type 0) : Type 0 where
  io : E → DirError E
  non_utf8 : DirError E

abbrev pub Environment : Type 0
Environment = Dict String String

unfoldable pub has_char : ℕ → String → Bool
unfolding nat_eq
has_char n String.[] = false
has_char n (String.◌∷◌ c s) = is_char c n || has_char n s

-- `trim_end_matches('\n')`
unfoldable pub trim_end_newlines : String → String
unfolding nat_eq
trim_end_newlines String.[] = String.[]
trim_end_newlines (String.◌∷◌ c s) = elim (trim_end_newlines s) [
  | String.[] ↦ if is_char c b'\n' then String.[] else String.◌∷◌ c String.[]
  | String.◌∷◌ x kept ↦ String.◌∷◌ c (String.◌∷◌ x kept)
]

-- `std::env::set_var`
unfoldable pub set_var : String → String → Environment → Option Environment
unfolding has_char
set_var key value env =
    if key == "" || has_char b'=' key || has_char 0 key || has_char 0 value
    then none
    else some (insert key value env)

module _ {E : Type 0} where
  unfoldable pub read_entry :
      Environment → String → Result E String → Option (Result (DirError E) Environment)
  unfolding set_var trim_end_newlines
  read_entry env key (err e) = some (err (io e))
  read_entry env key (ok content) =
      Partial.◌>>=◌ (set_var key (trim_end_newlines content) env) (λ env'. some (ok env'))

  unfoldable pub named_entry :
      Environment → Option String → Result E String → Option (Result (DirError E) Environment)
  unfolding read_entry
  named_entry env none content = some (err non_utf8)
  named_entry env (some key) content =
      if starts_with key "." then some (ok env) else read_entry env key content

  -- The body of the loop, where `continue` keeps the environment.
  unfoldable pub typed_entry :
      Environment
      → Result E FileType
      → Option String
      → Result E String
      → Option (Result (DirError E) Environment)
  unfolding named_entry
  typed_entry env (err e) name content = some (err (io e))
  typed_entry env (ok other) name content = some (ok env)
  typed_entry env (ok file) name content = named_entry env name content
  typed_entry env (ok symlink) name content = named_entry env name content

  unfoldable pub load_entry : Environment → DirEntry E → Option (Result (DirError E) Environment)
  unfolding typed_entry
  load_entry env e = typed_entry env e.file_type e.file_name e.content

  -- The loop; what was set before an error stays set.
  unfoldable pub load_entries :
      Environment
      → List (Result E (DirEntry E))
      → Option (Environment × Result (DirError E) (Unit {0}))
  unfolding load_entry
  load_entries env [] = some (env, ok tt)
  load_entries env (err e ∷ rest) = some (env, err (io e))
  load_entries env (ok entry ∷ rest) =
      Partial.◌>>=◌ (load_entry env entry)
        (λ r. elim r [ ok env' ↦ load_entries env' rest | err e ↦ some (env, err e) ])

  unfoldable pub load_env_dir :
      Environment
      → Result E (List (Result E (DirEntry E)))
      → Option (Environment × Result (DirError E) (Unit {0}))
  unfolding load_entries
  load_env_dir env (err e) = some (env, err (io e))
  load_env_dir env (ok entries) = load_entries env entries

pub data LoadError (E : Type 0) : Type 0 where
  unreadable unexpanded unparsed : E → LoadError E
  rejected : ConfigError → LoadError E

abbrev pub or_load : {A E : Type 0} → (E → LoadError E) → Result E A → Result (LoadError E) A
or_load wrap (ok a) = ok a
or_load wrap (err e) = err (wrap e)

abbrev pub or_rejected : {A E : Type 0} → Result ConfigError A → Result (LoadError E) A
or_rejected (ok a) = ok a
or_rejected (err e) = err (rejected e)

module _ {A F V M E : Type 0} ⦃eq : Eq A⦄ ⦃d : F64 F⦄ (parse_addr : String → Option A)
    (h : Http V M) (expand : String → Result E String)
    (from_toml : String → Result E (Config F)) where
  -- `Config::load`, of the text of the file.
  unfoldable pub load : Result E String → Result (LoadError E) (Config F)
  load text = do
    raw ← or_load unreadable text
    interpolated ← or_load unexpanded (expand raw)
    config ← or_load unparsed (from_toml interpolated)
    or_rejected (validate parse_addr h config)
    ok config
