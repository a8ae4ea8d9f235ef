-- ===== src/Startup/Reading.antt =====
-- What has been read when the variables are set and the configuration is loaded.
use sturnus.Prelude.{
  string_eq, ◌≡◌, refl, ap, ◌∙◌, String, List, Option, none, some, some-injective, Eq, Result, ok,
  err, ok-injective, >>=-eq-ok, arith,
}
use sturnus.Prelude.Partial.{>>=-eq-some}
use sturnus.Prelude.Dict.{lookup}
use sturnus.F64.{F64}
use sturnus.Http.{Http}
use sturnus.Config.{Config, ConfigError}
use sturnus.Config.Checks.{validate}
use sturnus.Config.Loading.{
  Environment, DirEntry, DirError, LoadError, unreadable, unexpanded, unparsed, or_load,
  or_rejected, load_env_dir, load,
}
use sturnus.Config.Secrets.{overlaid, load_entries-overlaid}
use sturnus.Startup.Command.{World, dir_read, read_env_dir}

or_load-ok :
    {A E : Type 0} (wrap : E → LoadError E) (r : Result E A) (a : A)
    → or_load wrap r ≡ ok a
    → r ≡ ok a
or_load-ok wrap (ok x) a e = ap ok (ok-injective e)
or_load-ok wrap (err x) a e = cc

or_rejected-ok :
    {A E : Type 0} (r : Result ConfigError A) (a : A) → or_rejected {E = E} r ≡ ok a → r ≡ ok a
or_rejected-ok (ok x) a e = ap ok (ok-injective e)
or_rejected-ok (err x) a e = cc

module _ {P E F : Type 0} (w : World P E F) where
  -- The variables after the directory of secrets, over those before it.
  abbrev pub Overlays : Option P → Environment → Environment → Type 0
  Overlays none before after = before ≡ after
  Overlays (some dir) before after =
      (entries : List (Result E (DirEntry E))) × (w.read_dir dir ≡ ok entries)
      × ((k : String) → lookup k after ≡ overlaid k entries (lookup k before))

  dir_read-ok :
      (left : Environment × Result (DirError E) (Unit {0})) (after : Environment)
      → dir_read left.0 left.1 ≡ ok after
      → left ≡ (after, ok tt)
  dir_read-ok (vars, ok tt) after e = ap (λ v. (v, ok tt)) (ok-injective e)
  dir_read-ok (vars, err x) after e = cc

  dir_entries-ok :
      (before after : Environment) (listing : Result E (List (Result E (DirEntry E))))
      → load_env_dir before listing ≡ some (after, ok tt)
      → (entries : List (Result E (DirEntry E))) × (listing ≡ ok entries)
        × ((k : String) → lookup k after ≡ overlaid k entries (lookup k before))
  unfolding load_env_dir
  dir_entries-ok before after (err e) h = absurd (ground arith)
  dir_entries-ok before after (ok entries) h =
      (entries, refl, λ k. load_entries-overlaid entries before after k h)

  pub read_env_dir-Overlays :
      (dir : Option P) (before after : Environment)
      → read_env_dir w dir before ≡ some (ok after)
      → Overlays dir before after
  unfolding read_env_dir
  read_env_dir-Overlays none before after e = ok-injective (some-injective _ _ e)
  read_env_dir-Overlays (some dir) before after e =
      let (left, loaded, e2) = >>=-eq-some (load_env_dir before (w.read_dir dir)) _ e in
      let same = dir_read-ok left after (some-injective _ _ e2) in
      dir_entries-ok before after (w.read_dir dir) (loaded ∙ ap some same)

module _ {A F V M E : Type 0} ⦃eq : Eq A⦄ ⦃d : F64 F⦄ (parse_addr : String → Option A)
    (h : Http V M) (expand : String → Result E String)
    (from_toml : String → Result E (Config F)) where
  pub record Loaded (text : Result E String) (config : Config F) : Type 0 where
    pub raw : String
    pub interpolated : String
    pub was_read : text ≡ ok raw
    pub was_expanded : expand raw ≡ ok interpolated
    pub was_parsed : from_toml interpolated ≡ ok config
    pub accepted : validate parse_addr h config ≡ ok tt

  pub load-Loaded :
      (text : Result E String) (config : Config F)
      → load parse_addr h expand from_toml text ≡ ok config
      → Loaded text config
  unfolding load
  load-Loaded text config e =
      let (raw, e1, f1) = >>=-eq-ok (or_load unreadable text) _ e in
      let (interpolated, e2, f2) = >>=-eq-ok (or_load unexpanded (expand raw)) _ f1 in
      let (c, e3, f3) = >>=-eq-ok (or_load unparsed (from_toml interpolated)) _ f2 in
      let (_, e4, f4) = >>=-eq-ok (or_rejected (validate parse_addr h c)) _ f3 in
      let same = ok-injective f4 in
      record {
        raw = raw;
        interpolated = interpolated;
        was_read = or_load-ok unreadable _ _ e1;
        was_expanded = or_load-ok unexpanded _ _ e2;
        was_parsed = or_load-ok unparsed _ _ e3 ∙ ap ok same;
        accepted = rw (← same) (or_rejected-ok _ tt e4);
      }
