-- ===== src/Server/Pinning.antt =====
-- A session: a client that sends back the affinity header of a response.
use sturnus.Prelude.{
  ℕ, ◌≡◌, refl, ap, ◌∙◌, true, false, Bool-cases, inl, inr, String, ◌<>◌, List, [], ◌∷◌, none, some,
  some-injective, find, get_elem?, ok, string_eq, nat_eq, arith, Option-cases, All-get_elem?, ◌↔◌,
  zero, suc, ℕ_discrete,
}
use text.Mathlib.TextLemmas.{nil-append, cons-append}
use sturnus.F64.{F64}
use sturnus.Http.{IsHeaderMap, get_header, first}
use sturnus.Candidate.{ResolvedCandidate}
use sturnus.Config.{Config}
use sturnus.ModelMap.{ModelMap, Registry, from_config, get}
use sturnus.ModelMap.Slots.{from_config_shares}
use sturnus.Tracker.{Tracker, LatencyMode, is_degraded}
use sturnus.Router.{RoundRobinState}
use sturnus.Proxy.Request.{ProxyResult}
use sturnus.Handler.{is_named, affinity_of, choose}
use sturnus.Handler.Choice.{choose-pinned}
use sturnus.Server.{Env}
use sturnus.Server.Request.{respond}
use sturnus.Server.Answers.{respond_lem}
use sturnus.Prelude.Str.{split_once_slash, is_char}

split_once_slash-append :
    (before after : String)
    → split_once_slash before ≡ none
    → split_once_slash (before <> "/" <> after) ≡ some (before, after)
unfolding split_once_slash ℕ_discrete
split_once_slash-append String.[] after e =
    ap split_once_slash (nil-append ("/" <> after))
    ∙ ap split_once_slash (cons-append "/" "" after)
    ∙ ap (λ s. some ("", s)) (nil-append after)
split_once_slash-append (String.◌∷◌ c s) after e = elim (Bool-cases (is_char c b'/')) [
  | inl slash ↦ absurd (ground (arith, rw slash at e))
  | inr other ↦ elim (Option-cases (split_once_slash s)) [
    | inr (found, split) ↦ absurd (ground (arith, rw (other, split) at e))
    | inl whole ↦
        rw (cons-append c s ("/" <> after), other, split_once_slash-append s after whole) refl
  ]
]

module _ {V M : Type 0} where
  is_named_iff :
      (provider model : String) (c : ResolvedCandidate V M)
      → (is_named (provider, model) c ≡ true) ↔ ((c.provider_name ≡ provider) × (c.model ≡ model))
  unfolding is_named
  is_named_iff provider model c = ground arith

  -- The first candidate with the provider and model of another.
  abbrev Finds : ResolvedCandidate V M → List (ResolvedCandidate V M) → Type 0
  Finds c cs =
      (found : ResolvedCandidate V M) × (j : ℕ) × (find (is_named (c.provider_name, c.model)) cs
        ≡ some found)
      × (get_elem? cs j ≡ some found)
      × (found.provider_name ≡ c.provider_name)
      × (found.model ≡ c.model)

  head_named :
      (c x : ResolvedCandidate V M) (xs : List (ResolvedCandidate V M))
      → (x.provider_name ≡ c.provider_name) × (x.model ≡ c.model)
      → Finds c (x ∷ xs)
  head_named c x xs names =
      let hit = (is_named_iff c.provider_name c.model x).1 names in
      rw hit (x, 0, refl, refl, names.0, names.1)

  find_named :
      (c : ResolvedCandidate V M) (cs : List (ResolvedCandidate V M)) (i : ℕ)
      → get_elem? cs i ≡ some c
      → Finds c cs
  find_named c [] i at = cc
  find_named c (x ∷ xs) zero at =
      let same = some-injective x c at in
      head_named c x xs (ap (λ y. y.provider_name) same, ap (λ y. y.model) same)
  find_named c (x ∷ xs) (suc i) at = elim (Bool-cases (is_named (c.provider_name, c.model) x)) [
    | inl hit ↦ head_named c x xs ((is_named_iff c.provider_name c.model x).0 hit)
    | inr miss ↦
        let (found, j, e, place, provider, model) = find_named c xs i at in
        rw miss (found, suc j, e, place, provider, model)
  ]

module _ {F V M S C H J R E : Type 0} ⦃d : F64 F⦄ (env : Env F V M S C H J R E)
    (laws : IsHeaderMap env.http) (config : Config F) (fresh : Tracker F) (registry : Registry F)
    (m : ModelMap V M) (built : from_config env.http config fresh ≡ ok (registry, m)) where
  -- A client sends back the affinity header that came with the response of a candidate, whose
  -- provider's name has no slash and whose names the header can be read as: on the model map of
  -- startup, as long as that candidate's slot is not degraded, the request is pinned to the same
  -- provider and model, with the same slot, and the router is not asked.
  pub session_sticks :
      (alias : String) (cs : List (ResolvedCandidate V M)) (i : ℕ) (c : ResolvedCandidate V M)
      (t : Tracker F) (rr : RoundRobinState) (k : F) (mode : LatencyMode) (r : ProxyResult M)
      (request : M)
      → get m alias ≡ some cs
      → get_elem? cs i ≡ some c
      → split_once_slash c.provider_name ≡ none
      → env.http.to_str c.affinity_header ≡ some (c.provider_name <> "/" <> c.model)
      → is_degraded t c.stats_index ≡ some false
      → get_header env.http request "x-session-affinity"
        ≡ get_header env.http (respond env c (ok r)).headers "x-session-affinity"
      → (again : ResolvedCandidate V M) × (choose alias cs t rr k mode
            (affinity_of env.http (env.http.remove "x-session-affinity" request).1)
          ≡ some (some again, rr))
        × (again.provider_name ≡ c.provider_name)
        × (again.model ≡ c.model)
        × (again.stats_index ≡ c.stats_index)
  unfolding affinity_of string_eq
  session_sticks alias cs i c t rr k mode r request known at plain text healthy sent =
      let (_, _, headers) = respond_lem env laws c (ok r) in
      let value = headers "x-session-affinity" in
      let returned : (env.http.remove "x-session-affinity" request).1 ≡ some c.affinity_header =
        laws.remove-old "x-session-affinity" request ∙ sent ∙ ap first value in
      let names : affinity_of env.http (env.http.remove "x-session-affinity" request).1
          ≡ some (c.provider_name, c.model) =
        ap (affinity_of env.http) returned
        ∙ rw (affinity_of, text) (split_once_slash-append c.provider_name c.model plain) in
      let (again, j, found, place, provider, model) = find_named c cs i at in
      let shares = from_config_shares env.http config fresh registry m alias cs built known in
      let same = All-get_elem? _ cs i (All-get_elem? _ cs j shares place) at (provider, model) in
      let pinned =
        (choose-pinned t cs alias rr k mode (c.provider_name, c.model)).0 again found
          (rw same healthy) in
      (again, ap (λ a. choose alias cs t rr k mode a) names ∙ pinned, provider, model, same)
