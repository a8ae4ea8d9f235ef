-- ===== src/Server/Ready.antt =====
-- A state on which no request panics, and the pages that read it.
use sturnus.Prelude.{
  ℕ, ◌*◌, ◌<◌, ◌≡◌, refl, Bool-cases, inl, inr, String, List, [], ◌∷◌, Option, none, some, length,
  All, get_elem?-some, contains, nat_eq, string_eq, ◌||◌, ◌==◌,
}
use sturnus.F64.{F64, IsIeee, fzero, ◌≼◌, u64_mod}
use sturnus.Candidate.{ResolvedCandidate}
use sturnus.Tracker.{LatencyMode, Tracker, is_degraded, stats_at}
use sturnus.Tracker.Invariant.{IsValid}
use sturnus.Router.{RoundRobinState, select_candidate}
use sturnus.Router.Weighing.{Registered}
use sturnus.ModelMap.{get, iter}
use sturnus.Handler.{pinned, keep_pin, choose, route_to}
use sturnus.Handler.Choice.{ChoosesMember, choose-total}
use sturnus.Server.{AppState, Env, Response}
use sturnus.Server.Observability.{
  Entry, entry_of, entries_from, build_status_response, observability_get,
}

module _ {F V M S C H G : Type 0} ⦃d : F64 F⦄ where
  pub record IsReady (state : AppState F V M S C H G) : Type 0 where
    pub tracker : IsValid state.tracker
    pub exploit_nonneg : fzero ≼ state.exploit_k
    pub listed :
        All (λ (alias, c). c.stats_index < length state.tracker.stats) (iter state.model_map)
    pub registered :
        (alias : String) (cs : List (ResolvedCandidate V M))
        → get state.model_map alias ≡ some cs
        → Registered state.tracker cs × (1000 * length cs < u64_mod)

-- What the choice returns: a candidate of the alias, or none where it has none.
abbrev pub Chooses :
    {V M : Type 0}
    → List (ResolvedCandidate V M)
    → Option (Option (ResolvedCandidate V M) × RoundRobinState)
    → Type 0
Chooses {V} {M} [] r = (rr : RoundRobinState) × (r ≡ some (none, rr))
Chooses {V} {M} (c ∷ cs) r = ChoosesMember (c ∷ cs) r

module _ {F V M : Type 0} ⦃d : F64 F⦄ where
  pub entry_of-total :
      (t : Tracker F) (c : ResolvedCandidate V M)
      → c.stats_index < length t.stats
      → (e : Entry F) × (entry_of t c ≡ some e)
  unfolding entry_of is_degraded stats_at
  entry_of-total t c h = let (s, slot) = get_elem?-some t.stats c.stats_index h in rw slot (_, refl)

  pub entries_from-total :
      (t : Tracker F) (seen : List ℕ) (cs : List (String × ResolvedCandidate V M))
      → All (λ (alias, c). c.stats_index < length t.stats) cs
      → (es : List (Entry F)) × (entries_from t seen cs ≡ some es)
  unfolding entries_from
  entries_from-total t seen [] _ = ([], refl)
  entries_from-total t seen ((alias, c) ∷ cs) (h, hs) =
      elim (Bool-cases (contains seen c.stats_index)) [
        | inl known ↦ let (es, e) = entries_from-total t seen cs hs in (es, rw known e)
        | inr fresh ↦
            let (es, e) = entries_from-total t (c.stats_index ∷ seen) cs hs in
            let (entry, f) = entry_of-total t c h in (entry ∷ es, rw (fresh, f, e) refl)
      ]

module _ {F V M S C H J R E G : Type 0} ⦃d : F64 F⦄ (env : Env F V M S C H J R E)
    (state : AppState F V M S C H G) (ready : IsReady state) where
  pub build_status_response-total :
      (page : Response M) × (build_status_response env state ≡ some page)
  unfolding build_status_response
  build_status_response-total =
      let (es, e) = entries_from-total state.tracker [] (iter state.model_map) ready.listed in
      rw e (_, refl)

  pub observability_get-total :
      (path : String)
      → (found : Option (Response M)) × (observability_get env state path ≡ some found)
  unfolding observability_get
  observability_get-total path =
      let (page, e) = build_status_response-total in
      elim (Bool-cases (path == "/health" || path == "/healthz")) [
        | inl health ↦ rw health (_, refl)
        | inr other ↦ elim (Bool-cases (path == "/status")) [
          | inl status ↦ (some page, rw (other, status, e) refl)
          | inr rest ↦ elim (Bool-cases (path == "/metrics")) [
            | inl metrics ↦ rw (other, rest, metrics) (_, refl)
            | inr unknown ↦ (none, rw (other, rest, unknown) refl)
          ]
        ]
      ]

  pub choose-Chooses :
      (ieee : IsIeee F) (alias : String) (cs : List (ResolvedCandidate V M)) (mode : LatencyMode)
      (affinity : Option (String × String))
      → get state.model_map alias ≡ some cs
      → Chooses cs (choose alias cs state.tracker state.rr_state state.exploit_k mode affinity)
  unfolding choose pinned keep_pin route_to select_candidate
  choose-Chooses ieee alias [] mode none found = (state.rr_state, refl)
  choose-Chooses ieee alias [] mode (some names) found = (state.rr_state, refl)
  choose-Chooses ieee alias (c ∷ cs) mode affinity found =
      let (slots, few) = ready.registered alias (c ∷ cs) found in
      choose-total ieee state.tracker ready.tracker state.exploit_k ready.exploit_nonneg mode c cs
        slots few alias state.rr_state affinity
