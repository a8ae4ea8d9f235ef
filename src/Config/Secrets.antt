-- ===== src/Config/Secrets.antt =====
-- What a directory of secrets makes of the environment.
use text.Mathlib.Text.{starts_with}
use sturnus.Prelude.{
  ◌≡◌, sym, ap, ◌∙◌, Bool-cases, inl, inr, String, List, [], ◌∷◌, Option, none, some,
  some-injective, if◌then◌else◌, ◌==◌, string_eq, Result, ok, err, ok-injective, arith, ◌||◌,
  Result-cases,
}
use sturnus.Prelude.Partial.{>>=-eq-some}
use sturnus.Prelude.Dict.{lookup, insert, lookup-insert}
use sturnus.Config.Loading.{
  FileType, file, symlink, other, DirEntry, DirError, Environment, trim_end_newlines, set_var,
  has_char, read_entry, named_entry, typed_entry, load_entry, load_entries,
}

-- A secret over a value.
abbrev over : String → Option (String × String) → Option String → Option String
over k none value = value
over k (some (key, secret)) value = if key == k then some secret else value

set_var-insert :
    (key value : String) (env env' : Environment)
    → set_var key value env ≡ some env'
    → insert key value env ≡ env'
unfolding set_var
set_var-insert key value env env' h =
    elim (Bool-cases (key == "" || has_char b'=' key || has_char 0 key || has_char 0 value)) [
      | inl bad ↦ absurd (ground (arith, rw bad at h))
      | inr good ↦ some-injective _ _ (rw good at h)
    ]

module _ {E : Type 0} where
  abbrev held : String → Result E String → Option (String × String)
  held key (ok content) = some (key, trim_end_newlines content)
  held key (err e) = none

  abbrev shown : Option String → Result E String → Option (String × String)
  shown none content = none
  shown (some key) content = if starts_with key "." then none else held key content

  abbrev secret_from :
      Result E FileType → Option String → Result E String → Option (String × String)
  secret_from (err e) name content = none
  secret_from (ok other) name content = none
  secret_from (ok file) name content = shown name content
  secret_from (ok symlink) name content = shown name content

  -- The secret that an entry holds: one of a file or a link that is not hidden.
  abbrev pub secret_of : DirEntry E → Option (String × String)
  secret_of e = secret_from e.file_type e.file_name e.content

  -- The value of a variable when the entries are laid over it one after the other.
  abbrev pub overlaid : String → List (Result E (DirEntry E)) → Option String → Option String
  overlaid k [] value = value
  overlaid k (err e ∷ rest) value = overlaid k rest value
  overlaid k (ok entry ∷ rest) value = overlaid k rest (over k (secret_of entry) value)

  read_entry_lem :
      (env env' : Environment) (key : String) (content : Result E String) (k : String)
      → read_entry env key content ≡ some (ok env')
      → lookup k env' ≡ over k (held key content) (lookup k env)
  unfolding read_entry
  read_entry_lem env env' key (err e) k h = absurd (ground arith)
  read_entry_lem env env' key (ok content) k h =
      let (made, f, g) = >>=-eq-some (set_var key (trim_end_newlines content) env) _ h in
      let same =
        set_var-insert key (trim_end_newlines content) env made f
        ∙ ok-injective (some-injective _ _ g) in
      ap (lookup k) (sym same) ∙ lookup-insert key k (trim_end_newlines content) env

  named_entry_lem :
      (env env' : Environment) (name : Option String) (content : Result E String) (k : String)
      → named_entry env name content ≡ some (ok env')
      → lookup k env' ≡ over k (shown name content) (lookup k env)
  unfolding named_entry
  named_entry_lem env env' none content k h = absurd (ground arith)
  named_entry_lem env env' (some key) content k h = elim (Bool-cases (starts_with key ".")) [
    | inl hidden ↦
        rw hidden (ap (lookup k) (sym (ok-injective (some-injective _ _ (rw hidden at h)))))
    | inr visible ↦ rw visible (read_entry_lem env env' key content k (rw visible at h))
  ]

  load_entry_lem :
      (env env' : Environment) (type : Result E FileType) (name : Option String)
      (content : Result E String) (k : String)
      → typed_entry env type name content ≡ some (ok env')
      → lookup k env' ≡ over k (secret_from type name content) (lookup k env)
  unfolding typed_entry
  load_entry_lem env env' (err e) name content k h = absurd (ground arith)
  load_entry_lem env env' (ok other) name content k h =
      ap (lookup k) (sym (ok-injective (some-injective _ _ h)))
  load_entry_lem env env' (ok file) name content k h = named_entry_lem env env' name content k h
  load_entry_lem env env' (ok symlink) name content k h = named_entry_lem env env' name content k h

  -- When a directory of secrets is loaded without an error, every variable has the value of the last
  -- file or link of its name, less the line ends after it, whether or not it had a value before; a
  -- variable for which there is none, or only a directory or a hidden file, keeps its value.
  pub load_entries-overlaid :
      (entries : List (Result E (DirEntry E))) (env env' : Environment) (k : String)
      → load_entries env entries ≡ some (env', ok tt)
      → lookup k env' ≡ overlaid k entries (lookup k env)
  unfolding load_entries load_entry
  load_entries-overlaid [] env env' k h =
      ap (λ (r : Environment × Result (DirError E) (Unit {0})). lookup k r.0)
        (sym (some-injective _ _ h))
  load_entries-overlaid (err e ∷ rest) env env' k h = absurd (ground arith)
  load_entries-overlaid (ok entry ∷ rest) env env' k h =
      let (r, now, later) = >>=-eq-some (load_entry env entry) _ h in
      elim (Result-cases r) [
        | inr (e, bad) ↦ absurd (ground (arith, rw bad at later))
        | inl (made, good) ↦
            load_entries-overlaid rest made env' k (rw good at later)
            ∙ ap (overlaid k rest) (
                load_entry_lem env made entry.file_type entry.file_name entry.content k
                  (rw good at now))
      ]
