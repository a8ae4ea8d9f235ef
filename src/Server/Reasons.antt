-- ===== src/Server/Reasons.antt =====
-- Every rejection of a request whose body was to be read has its reason.
use sturnus.Prelude.{
  ℕ, ◌≡◌, refl, sym, ap, ◌∙◌, String, List, Option, none, some, some-injective, Result, ok, err,
  Result-cases, Option-cases, inl, inr, ◌>>=◌, string_eq, arith,
}
use sturnus.F64.{F64}
use sturnus.Candidate.{ResolvedCandidate}
use sturnus.Router.{RoundRobinState}
use sturnus.Body.{RawBody, get_as, visit_map}
use sturnus.ModelMap.{get, alias_names}
use sturnus.Handler.{choose, affinity_of}
use sturnus.Proxy.{Bytes, OutboundBody, prepare_outbound}
use sturnus.Server.{
  AppState, Env, Failure, too_large, unreadable_body, not_an_object, invalid_json, missing_model,
  unknown_alias, no_healthy_candidate, unserializable, data_category, other_category, Response,
  json_error,
}
use sturnus.Server.Request.{
  ReadFailure, length_limit, other_failure, Routed, rejected, parsed, body_of,
}
use sturnus.Server.Stages.{accept, routed, route}
use sturnus.Server.Branches.{mode_of, route_branches}

module _ {F V M S C H J R E G : Type 0} ⦃d : F64 F⦄ (env : Env F V M S C H J R E)
    (state : AppState F V M S C H G) (owned : ℕ) (affinity : Option V) where
  -- A body that was read as an object.
  abbrev pub Reads : Result ReadFailure Bytes → RawBody R → Type 0
  Reads read body =
      (bytes : Bytes) × (read ≡ ok bytes) × ((env.entries bytes >>= visit_map) ≡ ok body)

  -- The status and the message of a rejection, with the reason for it.
  pub data Reason (read : Result ReadFailure Bytes) : ℕ → Failure E → Type 0 where
    too_long : read ≡ err length_limit → Reason read 413 (too_large state.budget.max_body_bytes)
    unreadable : read ≡ err other_failure → Reason read 400 unreadable_body
    no_object :
        (bytes : Bytes) (e : E)
        → read ≡ ok bytes
        → (env.entries bytes >>= visit_map) ≡ err (data_category e)
        → Reason read 400 not_an_object
    no_json :
        (bytes : Bytes) (e : E)
        → read ≡ ok bytes
        → (env.entries bytes >>= visit_map) ≡ err (other_category e)
        → Reason read 400 (invalid_json e)
    no_model :
        (body : RawBody R)
        → Reads read body
        → get_as env.as_string body "model" ≡ none
        → Reason read 400 missing_model
    no_alias :
        (body : RawBody R) (alias : String)
        → Reads read body
        → get_as env.as_string body "model" ≡ some alias
        → get state.model_map alias ≡ none
        → Reason read 400 (unknown_alias alias (alias_names state.model_map))
    no_candidate :
        (body : RawBody R) (alias : String) (cs : List (ResolvedCandidate V M))
        (rr : RoundRobinState)
        → Reads read body
        → get_as env.as_string body "model" ≡ some alias
        → get state.model_map alias ≡ some cs
        → choose alias cs state.tracker state.rr_state state.exploit_k
            (mode_of env state owned affinity body)
            (affinity_of env.http affinity)
          ≡ some (none, rr)
        → Reason read 502 (no_healthy_candidate alias)
    no_bytes :
        (body : RawBody R) (alias : String) (cs : List (ResolvedCandidate V M))
        (rr : RoundRobinState) (c : ResolvedCandidate V M) (e : E)
        → Reads read body
        → get_as env.as_string body "model" ≡ some alias
        → get state.model_map alias ≡ some cs
        → choose alias cs state.tracker state.rr_state state.exploit_k
            (mode_of env state owned affinity body)
            (affinity_of env.http affinity)
          ≡ some (some c, rr)
        → prepare_outbound env.json body c.model c.attribution_labels (some owned) ≡ err e
        → Reason read 500 unserializable

  abbrev pub Explained : Result ReadFailure Bytes → Response M → Type 0
  Explained read response =
      (status : ℕ) × (failure : Failure E) × (response ≡ json_error env status failure)
      × Reason read status failure

  abbrev chosen :
      RawBody R
      → String
      → List (ResolvedCandidate V M)
      → Option (Option (ResolvedCandidate V M) × RoundRobinState)
  chosen body alias cs =
      choose alias cs state.tracker state.rr_state state.exploit_k
        (mode_of env state owned affinity body) (affinity_of env.http affinity)

  abbrev written : RawBody R → ResolvedCandidate V M → Result E (OutboundBody ℕ)
  written body c = prepare_outbound env.json body c.model c.attribution_labels (some owned)

  -- One result of `route`, told in two ways.
  said :
      (read : Result ReadFailure Bytes) (x after : AppState F V M S C H G) (r response : Response M)
      → route env state owned affinity read ≡ some (x, rejected r)
      → route env state owned affinity read ≡ some (after, rejected response)
      → response ≡ r
  said read x after r response known e =
      let same =
        ap (λ (p : AppState F V M S C H G × Routed V M). p.1)
          (some-injective _ _ (sym e ∙ known)) in
      cc

  by_alias :
      (bytes : Bytes) (body : RawBody R) (alias : String) (after : AppState F V M S C H G)
      (response : Response M)
      → (env.entries bytes >>= visit_map) ≡ ok body
      → get_as env.as_string body "model" ≡ some alias
      → route env state owned affinity (ok bytes) ≡ some (after, rejected response)
      → Explained (ok bytes) response
  unfolding route routed accept body_of parsed
  by_alias bytes body alias after response good named e =
      let branches = route_branches env state owned affinity in
      elim (Option-cases (get state.model_map alias)) [
        | inl unknown ↦ (
          _,
          _,
          said (ok bytes) _ after _ response
              (((branches.4 bytes body good).1 alias named).0 unknown) e,
          no_alias body alias (bytes, refl, good) named unknown,
        )
        | inr (cs, found) ↦ elim (Option-cases (chosen body alias cs)) [
          | inl panics ↦ absurd (ground (arith, rw (good, named, found, panics) at e))
          | inr ((none, rr), empty) ↦ (
            _,
            _,
            said (ok bytes) _ after _ response
                ((((branches.4 bytes body good).1 alias named).1 cs rr found).0 empty) e,
            no_candidate body alias cs rr (bytes, refl, good) named found empty,
          )
          | inr ((some c, rr), picked) ↦ elim (Result-cases (written body c)) [
            | inr (x, bad) ↦ (
              _,
              _,
              said (ok bytes) _ after _ response
                  (((((branches.4 bytes body good).1 alias named).1 cs rr found).1 c picked).0 x
                    bad)
                  e,
              no_bytes body alias cs rr c x (bytes, refl, good) named found picked bad,
            )
            | inl (o, fine) ↦
                let on_its_way =
                  ((((branches.4 bytes body good).1 alias named).1 cs rr found).1 c picked).1 o
                    fine in
                absurd (ground (arith, on_its_way, e))
          ]
        ]
      ]

  -- A request that was rejected got the status and the message of a reason that it was rejected for:
  -- its body was too long or could not be read, was no object or no JSON, named no model or none of
  -- the aliases, the alias had no candidate, or the outbound body could not be written.
  pub rejections-Explained :
      (read : Result ReadFailure Bytes) (after : AppState F V M S C H G) (response : Response M)
      → route env state owned affinity read ≡ some (after, rejected response)
      → Explained read response
  rejections-Explained (err length_limit) after response e =
      (_, _, said _ _ after _ response (route_branches env state owned affinity).0 e, too_long refl)
  rejections-Explained (err other_failure) after response e = (
    _,
    _,
    said _ _ after _ response (route_branches env state owned affinity).1 e,
    unreadable refl,
  )
  rejections-Explained (ok bytes) after response e =
      let branches = route_branches env state owned affinity in
      elim (Result-cases (env.entries bytes >>= visit_map)) [
        | inr (data_category x, bad) ↦
            (_, _, said _ _ after _ response (branches.2 bytes x bad) e, no_object bytes x refl bad)
        | inr (other_category x, bad) ↦
            (_, _, said _ _ after _ response (branches.3 bytes x bad) e, no_json bytes x refl bad)
        | inl (body, good) ↦ elim (Option-cases (get_as env.as_string body "model")) [
          | inl missing ↦ (
            _,
            _,
            said _ _ after _ response ((branches.4 bytes body good).0 missing) e,
            no_model body (bytes, refl, good) missing,
          )
          | inr (alias, named) ↦ by_alias bytes body alias after response good named e
        ]
      ]
