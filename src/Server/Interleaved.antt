-- ===== src/Server/Interleaved.antt =====
-- No request panics, however requests come between one another.
use sturnus.Prelude.{
  Bool, Takes, ℕ, ◌<◌, ◌≡◌, refl, sym, ◌∙◌, subst, true, List, [], ◌∷◌, Option, some, length, All,
  All_mono, All-get_elem?, get_elem?-some, some-injective, Result, All-Takes,
}
use sturnus.F64.{F64, IsIeee}
use sturnus.Tracker.{stats_at}
use sturnus.Handler.{record_result}
use sturnus.Proxy.{Bytes}
use sturnus.Proxy.Request.{ForwardError, ProxyResult}
use sturnus.Server.{AppState, Env, Response}
use sturnus.Server.Request.{Incoming, ReadFailure, Begun, Routed, Forwarding}
use sturnus.Server.Stages.{begin, route, finish, give_back}
use sturnus.Server.Ready.{IsReady}
use sturnus.Server.Beginning.{Begins, begin-total}
use sturnus.Server.Routing.{Routes, route-total}
use sturnus.Prelude.Partial.{>>=-eq-some}
use sturnus.Server.Serving.{
  Serving, Live, Step, answers, admits, rejects, forwards, drops, finishes, abandons, shuts_down,
  Steps, stay, step, being_read,
}
use sturnus.Metrics.{Metrics}
use sturnus.Admission.{BufferBudget}
use sturnus.Router.{RoundRobinState}
use sturnus.Handler.Recording.{record_result_lem}
use sturnus.Handler.Keeping.{record_result_keeps}

module _ {F V M S C H G : Type 0} ⦃d : F64 F⦄ where
  -- The slot of a request that waits is in the tracker.
  abbrev pub HasSlot : AppState F V M S C H G → Forwarding V M → Type 0
  HasSlot state f = f.candidate.stats_index < length state.tracker.stats

  pub record IsServing (w : Serving F V M S C H G) : Type 0 where
    pub ready : IsReady w.state
    pub slots : All (HasSlot w.state) w.waiting

  -- `IsReady` reads neither the router's counters nor the metrics, the budget and the flag.
  pub IsReady-with :
      (state : AppState F V M S C H G) (rr : RoundRobinState) (metrics : Metrics C H)
      (budget : BufferBudget S) (shutting_down : Bool)
      → IsReady state
      → IsReady (record state {
        rr_state = rr;
        metrics = metrics;
        budget = budget;
        shutting_down = shutting_down;
      })
  IsReady-with state rr metrics budget shutting_down v = record {
    tracker = v.tracker;
    exploit_nonneg = v.exploit_nonneg;
    listed = v.listed;
    registered = v.registered;
  }

module _ {F V M S C H J R E G : Type 0} ⦃d : F64 F⦄ (env : Env F V M S C H J R E)
    (ieee : IsIeee F) where
  -- A result that is recorded.
  pub finish_keeps :
      (state after : AppState F V M S C H G) (f : Forwarding V M)
      (result : Result (ForwardError E) (ProxyResult M)) (response : Response M)
      → IsReady state
      → HasSlot state f
      → finish env state f result ≡ some (after, response)
      → IsReady after × ((g : Forwarding V M) → HasSlot state g → HasSlot after g)
  unfolding finish
  finish_keeps state after f result response v h e =
      let (t, e1, e2) =
        >>=-eq-some (record_result state.tracker f.candidate.stats_index result) _ e in
      let (valid, longer) = record_result_keeps ieee state.tracker t _ result v.tracker h e1 in
      subst
        (λ (x : AppState F V M S C H G × Response M).
          IsReady x.0 × ((g : Forwarding V M) → HasSlot state g → HasSlot x.0 g))
        (some-injective _ _ e2)
        (
          record {
            tracker = valid;
            exploit_nonneg = v.exploit_nonneg;
            listed = All_mono (λ (alias, c) p. longer c.stats_index p) _ v.listed;
            registered = λ alias cs found.
                let (slots, few) = v.registered alias cs found in
                (All_mono (λ c p. longer c.stats_index p) cs slots, few);
          },
          λ g p. longer g.candidate.stats_index p,
        )

  pub finish-total :
      (state : AppState F V M S C H G) (f : Forwarding V M)
      (result : Result (ForwardError E) (ProxyResult M))
      → IsReady state
      → HasSlot state f
      → (r : AppState F V M S C H G × Response M) × (finish env state f result ≡ some r)
  unfolding finish stats_at
  finish-total state f result v slot =
      let (s, at) = get_elem?-some state.tracker.stats f.candidate.stats_index slot in
      let (t, e, _, _) = record_result_lem state.tracker f.candidate.stats_index s result at in
      rw e (_, refl)

  -- The effect of `begin` on a given outcome.
  pub begin-Begins :
      (state after : AppState F V M S C H G) (req : Incoming M) (out : Begun V M)
      → IsReady state
      → begin env state req ≡ some (after, out)
      → Begins env state req after out
  begin-Begins state after req out v e =
      let (after', out', e', effect) = begin-total env state req v in
      subst (λ (x : AppState F V M S C H G × Begun V M). Begins env state req x.0 x.1)
        (some-injective _ _ (sym e' ∙ e)) effect

  pub route-Routes :
      (state after : AppState F V M S C H G) (owned : ℕ) (affinity : Option V)
      (read : Result ReadFailure Bytes) (out : Routed V M)
      → IsReady state
      → route env state owned affinity read ≡ some (after, out)
      → Routes env state owned after out
  route-Routes state after owned affinity read out v e =
      let (after', out', e', effect) = route-total env state owned ieee v affinity read in
      subst (λ (x : AppState F V M S C H G × Routed V M). Routes env state owned x.0 x.1)
        (some-injective _ _ (sym e' ∙ e)) effect

  pub Step-IsServing :
      (w next : Serving F V M S C H G) → Step env w next → IsServing w → IsServing next
  unfolding give_back
  Step-IsServing w _ (answers {after = after} req response e) v =
      let (m, same) = begin-Begins w.state after req _ v.ready e in
      subst (λ s. IsServing (record w { state = s })) (sym same)
        (record {
          ready =
              IsReady-with w.state w.state.rr_state m w.state.budget w.state.shutting_down v.ready;
          slots = v.slots;
        })
  Step-IsServing w _ (admits {after = after} req bytes owned affinity len e) v =
      let (b, _, same) = begin-Begins w.state after req _ v.ready e in
      let begun : Live V = record {
        body = record { bytes = bytes; owned = owned };
        stage = being_read affinity;
      } in
      subst (λ s. IsServing (record { state = s; lives = begun ∷ w.lives; waiting = w.waiting }))
        (sym same)
        (record {
          ready =
              IsReady-with w.state w.state.rr_state w.state.metrics b w.state.shutting_down v.ready;
          slots = v.slots;
        })
  Step-IsServing w _ (rejects {after = after} {others = others} body affinity read response taken e)
        v =
      let (rr, same) = route-Routes w.state after body.owned affinity read _ v.ready e in
      subst (λ s. IsServing (record { state = s; lives = others; waiting = w.waiting })) (sym same)
        (record {
          ready = IsReady-with w.state rr w.state.metrics _ w.state.shutting_down v.ready;
          slots = v.slots;
        })
  Step-IsServing w _ (forwards {after = after} {lives = lives} body affinity read f taken e) v =
      let ((rr, same), _, (cs, i, found, at)) =
        route-Routes w.state after body.owned affinity read _ v.ready e in
      subst (λ s. IsServing (record { state = s; lives = lives; waiting = f ∷ w.waiting }))
        (sym same)
        (record {
          ready =
              IsReady-with w.state rr w.state.metrics w.state.budget w.state.shutting_down v.ready;
          slots = (All-get_elem? _ cs i (v.ready.registered f.alias cs found).0 at, v.slots);
        })
  Step-IsServing w _ (drops taken) v = record {
    ready = IsReady-with w.state w.state.rr_state w.state.metrics _ w.state.shutting_down v.ready;
    slots = v.slots;
  }
  Step-IsServing w _ (finishes {after = after} {f = f} result response taken e) v =
      let (here, others) = All-Takes (HasSlot w.state) taken v.slots in
      let (ready, kept) = finish_keeps w.state after f result response v.ready here e in
      record { ready = ready; slots = All_mono kept _ others }
  Step-IsServing w _ (abandons taken) v = record {
    ready = v.ready;
    slots = (All-Takes (HasSlot w.state) taken v.slots).1;
  }
  Step-IsServing w _ shuts_down v = record {
    ready = IsReady-with w.state w.state.rr_state w.state.metrics w.state.budget true v.ready;
    slots = v.slots;
  }

  pub Steps-IsServing :
      (w next : Serving F V M S C H G) → Steps env w next → IsServing w → IsServing next
  Steps-IsServing w _ stay v = v
  Steps-IsServing w _ (step s rest) v = Steps-IsServing _ _ rest (Step-IsServing w _ s v)

  -- Every request that there can be gets through its next part without a panic.
  abbrev pub NeverPanics : Serving F V M S C H G → Type 0
  NeverPanics w =
      ((req : Incoming M)
        → (r : AppState F V M S C H G × Begun V M) × (begin env w.state req ≡ some r))
      × ((owned : ℕ) (affinity : Option V) (read : Result ReadFailure Bytes)
          → (r : AppState F V M S C H G × Routed V M) × (route env w.state owned affinity read
              ≡ some r))
      × ((f : Forwarding V M) (others : List (Forwarding V M))
            (result : Result (ForwardError E) (ProxyResult M))
          → Takes w.waiting f others
          → (r : AppState F V M S C H G × Response M) × (finish env w.state f result ≡ some r))

  -- From a state that is ready, with no request in flight, after any steps of any requests, in any
  -- order, with clients that leave and a shutdown at any time: no request panics, be it one that
  -- begins, one whose body was read or not, or one that waits and gets a response or an error.
  pub never_panics :
      (state : AppState F V M S C H G) (w : Serving F V M S C H G)
      → IsReady state
      → Steps env (record { state = state; lives = []; waiting = [] }) w
      → NeverPanics w
  never_panics state w ready reached =
      let v = Steps-IsServing _ w reached (record { ready = ready; slots = tt }) in
      (
        λ req. let (after, out, e, _) = begin-total env w.state req v.ready in ((after, out), e),
        λ owned affinity read.
            let (after, out, e, _) = route-total env w.state owned ieee v.ready affinity read in
            ((after, out), e),
        λ f others result taken.
            finish-total w.state f result v.ready (All-Takes (HasSlot w.state) taken v.slots).0,
      )
