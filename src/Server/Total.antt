-- ===== src/Server/Total.antt =====
-- One request from end to end.
use sturnus.Prelude.{
  ℕ, ◌≤◌, ◌≡◌, refl, sym, ap, ◌∙◌, String, Option, none, some, get_elem?-some, All-get_elem?, arith,
  ok,
}
use sturnus.Prelude.Partial.{◌>>=◌}
use sturnus.F64.{F64, IsIeee}
use sturnus.Tracker.{stats_at}
use sturnus.Admission.{BufferBudget, release, available_permits, admit}
use sturnus.Admission.Permits.{IsSemaphore}
use sturnus.Admission.Reserve.{admit-Admitted}
use sturnus.Server.{AppState, Env, Response}
use sturnus.Server.Request.{Incoming, answered, reading, Forwarding, rejected, forwarding, owned_by}
use sturnus.Server.Stages.{begin, route, give_back}
use sturnus.Server.Handle.{World, forward, after_route, after_begin, handle_request}
use sturnus.Server.Ready.{IsReady}
use sturnus.Server.Beginning.{BeginsAs, begin-total}
use sturnus.Server.Routing.{RoutesTo, route-total}
use sturnus.Server.Interleaved.{HasSlot, finish_keeps, finish-total, IsReady-with}
use sturnus.Server.Permits.{finish-budget}

module _ {F V M S C H J R E G : Type 0} ⦃d : F64 F⦄ (env : Env F V M S C H J R E) (ieee : IsIeee F)
    (laws : IsSemaphore env.semaphore) (world : World M E) where
  -- A request is answered, on a state that is ready afterwards and has the permits it had.
  abbrev pub Answers :
      AppState F V M S C H G → Option (AppState F V M S C H G × Response M) → Type 0
  Answers state r =
      (after : AppState F V M S C H G) × (response : Response M) × (r ≡ some (after, response))
      × IsReady after
      × (available_permits env.semaphore after.budget
          ≡ available_permits env.semaphore state.budget)

  -- The permits of a body that was admitted, back.
  refilled :
      (state : AppState F V M S C H G) (req : Incoming M) (budget : BufferBudget S) (owned : ℕ)
      → available_permits env.semaphore state.budget ≤ env.semaphore.max_permits
      → admit env.semaphore state.budget req.declared_len ≡ ok (budget, owned)
      → available_permits env.semaphore (release env.semaphore budget owned)
        ≡ available_permits env.semaphore state.budget
  unfolding available_permits release admit
  refilled state req budget owned room e = from req.declared_len e
    where
      from :
          (len : Option ℕ)
          → admit env.semaphore state.budget len ≡ ok (budget, owned)
          → available_permits env.semaphore (release env.semaphore budget owned)
            ≡ available_permits env.semaphore state.budget
      from none e = absurd (ground arith)
      from (some bytes) e =
          let a = admit-Admitted env.semaphore laws state.budget bytes budget owned e in
          laws.available-release budget.semaphore owned (omega (arith, a.taken, room)) ∙ a.taken

  finishes :
      (before state : AppState F V M S C H G) (f : Forwarding V M) (path : String)
      → IsReady state
      → HasSlot state f
      → available_permits env.semaphore (release env.semaphore state.budget (owned_by f))
        ≡ available_permits env.semaphore before.budget
      → Answers before (after_route env world path (state, forwarding f))
  unfolding after_route give_back stats_at
  finishes before state f path ready slot room =
      let back : AppState F V M S C H G = record state {
        budget = release env.semaphore state.budget (owned_by f);
      } in
      let ready' =
        IsReady-with state state.rr_state state.metrics back.budget state.shutting_down ready in
      let (s, at) = get_elem?-some state.tracker.stats f.candidate.stats_index slot in
      let result = forward env world state path f in
      let ((after, response), e) = finish-total env ieee back f result ready' slot in
      (
        after,
        response,
        e,
        (finish_keeps env ieee back after f result response ready' slot e).0,
        ap (available_permits env.semaphore)
              (sym (finish-budget env ieee back after f result response e))
            ∙ room,
      )

  routes :
      (before state : AppState F V M S C H G) (owned : ℕ) (affinity : Option V) (path : String)
      → IsReady state
      → available_permits env.semaphore (release env.semaphore state.budget owned)
        ≡ available_permits env.semaphore before.budget
      → Answers before (route env state owned affinity world.read >>= after_route env world path)
  unfolding after_route
  routes before state owned affinity path ready room =
      settled (route-total env state owned ieee ready affinity world.read)
    where
      settled :
          RoutesTo env state owned (route env state owned affinity world.read)
          → Answers before
              (route env state owned affinity world.read >>= after_route env world path)
      settled (after, rejected response, e, (rr, same)) =
          rw (e, same)
            (
              _,
              response,
              refl,
              IsReady-with state rr state.metrics _ state.shutting_down ready,
              room,
            )
      settled (after, forwarding f, e, ((rr, same), carried, (cs, i, found, at))) =
          rw (e, same)
            (finishes before (record state { rr_state = rr }) f path
              (IsReady-with state rr state.metrics state.budget state.shutting_down ready)
              (All-get_elem? _ cs i (ready.registered f.alias cs found).0 at) (rw carried room))

  -- On a state that is ready, a request that runs alone always ends with a response: the handler
  -- terminates without a panic whatever the client sends, however reading its body goes and whatever
  -- the upstream and the token provider answer; the state is ready for the next request, and every
  -- permit that the request took is back.
  pub handle_request-total :
      (state : AppState F V M S C H G) (req : Incoming M)
      → IsReady state
      → available_permits env.semaphore state.budget ≤ env.semaphore.max_permits
      → Answers state (handle_request env world state req)
  unfolding handle_request after_begin
  handle_request-total state req ready room = settled (begin-total env state req ready)
    where
      settled :
          BeginsAs env state req (begin env state req)
          → Answers state (begin env state req >>= after_begin env world req.path)
      settled (after, answered response, e, (metrics, same)) =
          rw (e, same)
            (
              _,
              response,
              refl,
              IsReady-with state state.rr_state metrics state.budget state.shutting_down ready,
              refl,
            )
      settled (after, reading owned affinity, e, (budget, taken, same)) =
          rw (e, same)
            (routes state (record state { budget = budget }) owned affinity req.path
              (IsReady-with state state.rr_state state.metrics budget state.shutting_down ready)
              (refilled state req budget owned room taken))
