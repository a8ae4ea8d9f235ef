-- ===== src/ModelMap.antt =====
-- src/model_map.rs: the aliases with their candidates, built from the configuration.
-- A `BTreeMap` is its entries, in an order that no theorem fixes. After an error the caller drops
-- the tracker, so an error carries none.
pub mod Dedup
pub mod Resolving
pub mod Slots
pub mod Tracking
pub mod Aliases
pub mod Startup
pub mod Sample
pub mod Tests
use sturnus.Prelude.{
  ℕ, Bool, true, false, ◌&&◌, if◌then◌else◌, String, ◌<>◌, List, [], ◌∷◌, ◌++◌, pair_eq, Option,
  none, some, ◌==◌, string_eq, Eq, Result, ok, err, ◌>>=◌, ok_or, cond,
}
use sturnus.Prelude.Dict.{Dict, lookup, insert, keys}
use sturnus.F64.{F64}
use sturnus.Http.{Http}
use sturnus.Candidate.{ResolvedCandidate}
use sturnus.Tracker.{Tracker, register}
use sturnus.Config.{
  ProviderConfig, ModelCandidate, Config, HeaderError, resolved_base_url, resolved_kind,
}
use sturnus.Config.Checks.{resolved_headers, opts_in}

pub data MapError : Type 0 where
  undefined_provider : (alias provider : String) → MapError
  no_base_url invalid_provider_name : (provider : String) → MapError
  invalid_model_name : (model provider : String) → MapError
  invalid_headers : (provider : String) → HeaderError → MapError

pub record ModelMap (V M : Type 0) : Type 0 where
  pub aliases : Dict String (List (ResolvedCandidate V M))

-- The `dedup` map and the tracker, which both change.
pub record Registry (F : Type 0) : Type 0 where
  pub dedup : Dict (String × String) ℕ
  pub tracker : Tracker F

abbrev with_provider : {A : Type 0} → String → Result HeaderError A → Result MapError A
with_provider name (ok a) = ok a
with_provider name (err e) = err (invalid_headers name e)

module _ {F : Type 0} ⦃d : F64 F⦄ where
  -- `or_insert_with(|| tracker.register())`, on the entry of the key.
  slot_from : Registry F → String × String → Option ℕ → Registry F × ℕ
  unfolding register
  slot_from r key (some index) = (r, index)
  slot_from r key none =
      let (t, index) = register r.tracker in
      (record { dedup = insert key index r.dedup; tracker = t }, index)

  unfoldable pub slot_for : Registry F → String × String → Registry F × ℕ
  unfolding slot_from
  slot_for r key = slot_from r key (lookup key r.dedup)

  module _ {V M : Type 0} (h : Http V M) (config : Config F) where
    -- The closure of `map`.
    unfoldable pub resolve :
        Registry F → String → ModelCandidate → Result MapError (Registry F × ResolvedCandidate V M)
    resolve r alias c = do
      prov ← ok_or (lookup c.provider config.provider) (undefined_provider alias c.provider)
      base_url ← ok_or (resolved_base_url prov) (no_base_url c.provider)
      provider_header ← ok_or (h.header_value c.provider) (invalid_provider_name c.provider)
      affinity_header ←
          ok_or (h.header_value (c.provider <> "/" <> c.model))
            (invalid_model_name c.model c.provider)
      let slot = slot_for r (c.provider, c.model)
      extra_headers ← with_provider c.provider (resolved_headers h prov)
      ok (
        slot.0,
        record {
          provider_name = c.provider;
          model = c.model;
          base_url = base_url;
          api_key = prov.api_key;
          kind = resolved_kind prov;
          stats_index = slot.1;
          provider_header = provider_header;
          affinity_header = affinity_header;
          attribution_labels = if opts_in prov.vertex_ai then some config.attribution else none;
          extra_headers = extra_headers;
        },
      )

    -- `collect`, up to the first error.
    unfoldable pub resolve_all :
        Registry F
        → String
        → List ModelCandidate
        → Result MapError (Registry F × List (ResolvedCandidate V M))
    unfolding resolve
    resolve_all r alias [] = ok (r, [])
    resolve_all r alias (c ∷ cs) = do
      (r', resolved) ← resolve r alias c
      (r'', later) ← resolve_all r' alias cs
      ok (r'', resolved ∷ later)

    -- The loop over the aliases.
    unfoldable pub build :
        Registry F
        → ModelMap V M
        → Dict String (List ModelCandidate)
        → Result MapError (Registry F × ModelMap V M)
    unfolding resolve_all
    build r m [] = ok (r, m)
    build r m ((alias, candidates) ∷ rest) = do
      (r', resolved) ← resolve_all r alias candidates
      build r' (record { aliases = insert alias resolved m.aliases }) rest

    unfoldable pub from_config : Tracker F → Result MapError (Registry F × ModelMap V M)
    unfolding build
    from_config t =
        build (record { dedup = []; tracker = t }) (record { aliases = [] }) config.model

module _ {V M : Type 0} where
  unfoldable pub get : ModelMap V M → String → Option (List (ResolvedCandidate V M))
  get m alias = lookup alias m.aliases

  unfoldable pub alias_names : ModelMap V M → List String
  alias_names m = keys m.aliases

  abbrev tagged : String → List (ResolvedCandidate V M) → List (String × ResolvedCandidate V M)
  tagged alias [] = []
  tagged alias (c ∷ cs) = (alias, c) ∷ tagged alias cs

  flat_map : Dict String (List (ResolvedCandidate V M)) → List (String × ResolvedCandidate V M)
  flat_map [] = []
  flat_map ((alias, cs) ∷ rest) = tagged alias cs ++ flat_map rest

  unfoldable pub iter : ModelMap V M → List (String × ResolvedCandidate V M)
  unfolding flat_map
  iter m = flat_map m.aliases
