-- ===== src/Server/Routing.antt =====
-- What `route` does with the permits and the candidates, and that it never panics.
use sturnus.Prelude.{
  ℕ, ◌≡◌, refl, sym, ap, subst, Bool, String, List, [], ◌∷◌, Option, some, get_elem?, Result, ok,
  err, Result-cases, inl, inr, >>=-eq-ok, ok_or-eq-ok, ok-injective, ok_or, string_eq,
}
use sturnus.F64.{F64, IsIeee}
use sturnus.Candidate.{ResolvedCandidate}
use sturnus.Router.{RoundRobinState}
use sturnus.Admission.{release}
use sturnus.Body.{RawBody, get_as}
use sturnus.ModelMap.{get}
use sturnus.Handler.{affinity_of, latency_mode}
use sturnus.Proxy.{Bytes, OutboundBody, prepare_outbound, prepare_body}
use sturnus.Server.{AppState, Env}
use sturnus.Server.Request.{ReadFailure, Routed, rejected, forwarding, body_of}
use sturnus.Server.Stages.{accept, reject, give_back, dispatch, send_to, routed, route}
use sturnus.Server.Ready.{IsReady, choose-Chooses}

module _ {F V M S C H J R E G : Type 0} ⦃d : F64 F⦄ (env : Env F V M S C H J R E)
    (state : AppState F V M S C H G) (owned : ℕ) where
  -- What a request leaves behind when it is routed: rejected, its permits are released; on its way,
  -- the outbound body carries them, and its candidate is one of the alias. Nothing else changes but
  -- the counter of the router.
  abbrev pub Routes : AppState F V M S C H G → Routed V M → Type 0
  Routes after (rejected response) =
      (rr : RoundRobinState) × (after
        ≡ record state { rr_state = rr; budget = release env.semaphore state.budget owned })
  Routes after (forwarding f) =
      ((rr : RoundRobinState) × (after ≡ record state { rr_state = rr }))
      × (f.outbound.permit ≡ some owned)
      × ((cs : List (ResolvedCandidate V M)) × (i : ℕ) × (get state.model_map f.alias ≡ some cs)
          × (get_elem? cs i ≡ some f.candidate))

  abbrev pub RoutesTo : Option (AppState F V M S C H G × Routed V M) → Type 0
  RoutesTo r =
      (after : AppState F V M S C H G) × (out : Routed V M) × (r ≡ some (after, out))
      × Routes after out

  dispatched :
      (rr : RoundRobinState) (alias : String) (c : ResolvedCandidate V M) (is_streaming : Bool)
      (cs : List (ResolvedCandidate V M)) (i : ℕ) (out : Result E (OutboundBody ℕ))
      → get state.model_map alias ≡ some cs
      → get_elem? cs i ≡ some c
      → ((o : OutboundBody ℕ) → out ≡ ok o → o.permit ≡ some owned)
      → let r = dispatch env (record state { rr_state = rr }) owned alias c is_streaming out in
        Routes r.0 r.1
  unfolding dispatch reject give_back
  dispatched rr alias c is_streaming cs i (err e) found at carries = (rr, refl)
  dispatched rr alias c is_streaming cs i (ok o) found at carries =
      ((rr, refl), carries o refl, (cs, i, found, at))

  carries_permit :
      (body : RawBody R) (c : ResolvedCandidate V M) (o : OutboundBody ℕ)
      → prepare_outbound env.json body c.model c.attribution_labels (some owned) ≡ ok o
      → o.permit ≡ some owned
  unfolding prepare_outbound
  carries_permit body c o e =
      let (sent, _, f) = >>=-eq-ok (prepare_body env.json body c.model c.attribution_labels) _ e in
      let (bytes, _, g) = >>=-eq-ok (env.json.to_vec sent) _ f in
      ap (λ b. b.permit) (sym (ok-injective g))

  accept-get :
      (read : Result ReadFailure Bytes) (body : RawBody R) (alias : String)
      (cs : List (ResolvedCandidate V M))
      → accept env state read ≡ ok (body, alias, cs)
      → get state.model_map alias ≡ some cs
  unfolding accept
  accept-get read body alias cs e =
      let (b, _, f) = >>=-eq-ok (body_of env state.budget.max_body_bytes read) _ e in
      let (a, _, g) = >>=-eq-ok (ok_or (get_as env.as_string b "model") _) _ f in
      let (found, h, k) = >>=-eq-ok (ok_or (get state.model_map a) _) _ g in
      let same = ok-injective k in
      subst (λ r. get state.model_map r.1 ≡ some r.2) same (ok_or-eq-ok (get state.model_map a) _ h)

  module _ (ieee : IsIeee F) (ready : IsReady state) where
    chosen_routes :
        (body : RawBody R) (alias : String) (cs : List (ResolvedCandidate V M))
        (affinity : Option V)
        → get state.model_map alias ≡ some cs
        → RoutesTo (routed env state owned affinity (ok (body, alias, cs)))
    unfolding routed send_to reject give_back
    chosen_routes body alias [] affinity found =
        let (rr, e) =
          choose-Chooses env state ready ieee alias []
            (latency_mode (get_as env.as_bool body "stream")) (affinity_of env.http affinity)
            found in
        rw e (_, _, refl, (rr, refl))
    chosen_routes body alias (c ∷ cs) affinity found =
        let (i, chosen, rr, at, e) =
          choose-Chooses env state ready ieee alias (c ∷ cs)
            (latency_mode (get_as env.as_bool body "stream")) (affinity_of env.http affinity)
            found in
        rw e (
          _,
          _,
          refl,
          dispatched rr alias chosen _ (c ∷ cs) i _ found at (carries_permit body chosen),
        )

    -- On a state that is ready, a request is routed without a panic: with an early return, its
    -- permits are released; on its way, the outbound body carries them, and it goes to a candidate
    -- of its alias. Nothing else of the state changes, but for the counter of the router.
    pub route-total :
        (affinity : Option V) (read : Result ReadFailure Bytes)
        → RoutesTo (route env state owned affinity read)
    unfolding route routed reject give_back
    route-total affinity read = elim (Result-cases (accept env state read)) [
      | inr (early, e) ↦ rw e (_, _, refl, (state.rr_state, refl))
      | inl ((body, alias, cs), e) ↦
          rw e (chosen_routes body alias cs affinity (accept-get read body alias cs e))
    ]
