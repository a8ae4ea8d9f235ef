-- ===== src/Server/Permits.antt =====
-- The permits of the requests in flight: the steps of the handler are those of the buffer budget.
use sturnus.Prelude.{
  ℕ, ◌+◌, ◌*◌, ◌≤◌, ◌≡◌, refl, sym, ap, ◌∙◌, subst, List, [], ◌∷◌, Takes, Replaces, here, there,
  at_head, in_tail, ok, max, some, some-injective, Result, arith,
}
use sturnus.Prelude.Partial.{>>=-eq-some}
use sturnus.Handler.{record_result}
use sturnus.Proxy.Request.{ForwardError, ProxyResult}
use sturnus.Server.Ready.{IsReady}
use sturnus.F64.{F64, IsIeee, u64_max}
use sturnus.Admission.{new_budget, admit, release, available_permits, u32_max}
use sturnus.Admission.Permits.{IsSemaphore}
use sturnus.Admission.InFlight.{
  admitted, released, Body, Flights, total_bytes, total_owned, Steps-append, in_flight_bounded,
}
use sturnus.Admission.InFlight
use sturnus.Server.{AppState, Env, Response}
use sturnus.Server.Request.{Forwarding}
use sturnus.Server.Stages.{give_back, finish}
use sturnus.Server.Serving.{
  Serving, Live, Step, answers, admits, rejects, forwards, drops, finishes, abandons, shuts_down,
  Steps, stay, step,
}
use sturnus.Server.Interleaved.{IsServing, Step-IsServing, begin-Begins, route-Routes}

abbrev pub bodies_of : {V : Type 0} → List (Live V) → List Body
bodies_of [] = []
bodies_of (x ∷ xs) = x.body ∷ bodies_of xs

bodies_of-Takes :
    {V : Type 0} {xs ys : List (Live V)} {x : Live V}
    → Takes xs x ys
    → Takes (bodies_of xs) x.body (bodies_of ys)
bodies_of-Takes here = here
bodies_of-Takes (there r) = there (bodies_of-Takes r)

bodies_of-Replaces :
    {V : Type 0} {xs ys : List (Live V)} {x y : Live V}
    → Replaces xs x y ys
    → x.body ≡ y.body
    → bodies_of xs ≡ bodies_of ys
bodies_of-Replaces (at_head {xs = xs}) e = ap (λ b. b ∷ bodies_of xs) e
bodies_of-Replaces (in_tail {z = z} r) e = ap (λ l. z.body ∷ l) (bodies_of-Replaces r e)

module _ {F V M S C H G : Type 0} where
  -- The budget and the bodies, which is all that admission is about.
  abbrev pub flights : Serving F V M S C H G → Flights S
  flights w = record { budget = w.state.budget; bodies = bodies_of w.lives }

module _ {F V M S C H J R E G : Type 0} ⦃d : F64 F⦄ (env : Env F V M S C H J R E)
    (ieee : IsIeee F) where
  abbrev Flies : Serving F V M S C H G → Serving F V M S C H G → Type 0
  Flies w next = InFlight.Steps env.semaphore (flights w) (flights next)

  once :
      (w next : Serving F V M S C H G)
      → InFlight.Step env.semaphore (flights w) (flights next)
      → Flies w next
  once w next s = InFlight.step s InFlight.stay

  -- A step that leaves the budget and the bodies.
  idle :
      (w next : Serving F V M S C H G)
      → w.state.budget ≡ next.state.budget
      → bodies_of w.lives ≡ bodies_of next.lives
      → Flies w next
  idle w next e f =
      let same : flights w ≡ flights next = λ i. record { budget = e i; bodies = f i } in
      subst (λ x. InFlight.Steps env.semaphore (flights w) x) same InFlight.stay

  pub finish-budget :
      (state after : AppState F V M S C H G) (f : Forwarding V M)
      (result : Result (ForwardError E) (ProxyResult M)) (response : Response M)
      → finish env state f result ≡ some (after, response)
      → state.budget ≡ after.budget
  unfolding finish
  finish-budget state after f result response e =
      let (t, _, done) =
        >>=-eq-some (record_result state.tracker f.candidate.stats_index result) _ e in
      ap (λ (x : AppState F V M S C H G × Response M). x.0.budget) (some-injective _ _ done)

  Step-Flies : (w next : Serving F V M S C H G) → Step env w next → IsServing w → Flies w next
  unfolding give_back
  Step-Flies w next (answers {after = after} req response e) v =
      let (m, same) = begin-Begins env ieee w.state after req _ v.ready e in
      idle w next (ap (λ s. s.budget) (sym same)) refl
  Step-Flies w next (admits {after = after} req bytes owned affinity len e) v =
      let (b, taken, same) = begin-Begins env ieee w.state after req _ v.ready e in
      once w next (
        admitted bytes owned (
          sym (ap (admit env.semaphore w.state.budget) len)
          ∙ taken
          ∙ ap (λ s. ok (s.budget, owned)) (sym same)))
  Step-Flies w next (rejects {after = after} {others = others} body affinity read response taken e)
        v =
      let (rr, same) = route-Routes env ieee w.state after body.owned affinity read _ v.ready e in
      let freed = release env.semaphore w.state.budget body.owned in
      let left : Serving F V M S C H G = record {
        state = record w.state { rr_state = rr; budget = freed };
        lives = others;
        waiting = w.waiting;
      } in
      subst (λ s. Flies w (record left { state = s })) (sym same)
        (once w left (released (bodies_of-Takes taken)))
  Step-Flies w next (forwards {after = after} body affinity read f moved e) v =
      let ((rr, same), _, _) =
        route-Routes env ieee w.state after body.owned affinity read _ v.ready e in
      idle w next (ap (λ s. s.budget) (sym same)) (bodies_of-Replaces moved refl)
  Step-Flies w next (drops taken) v = once w next (released (bodies_of-Takes taken))
  Step-Flies w next (finishes {after = after} {f = f} result response taken e) v =
      idle w next (finish-budget w.state after f result response e) refl
  Step-Flies w next (abandons taken) v = idle w next refl refl
  Step-Flies w next shuts_down v = idle w next refl refl

  -- The handler refines the buffer budget: whatever the requests do, from a state that is ready,
  -- the budget and the bodies in flight go through steps of the budget alone, each of which admits
  -- a body or releases one with exactly the permits that it owns.
  pub serving_refines :
      (w next : Serving F V M S C H G) → IsServing w → Steps env w next → Flies w next
  serving_refines w _ v stay = InFlight.stay
  serving_refines w next v (step {v = between} s rest) =
      Steps-append env.semaphore (flights w) (flights between) (flights next)
        (Step-Flies w between s v)
        (serving_refines between next (Step-IsServing env ieee w between s v) rest)

  -- Under the bounds on the budget and the cap of a fresh budget: however the requests of a state
  -- that is ready interleave, the bodies held in memory never declare more bytes than the budget, or
  -- one kilobyte if that is more, and every permit is available or owned by one of them, so that all
  -- are available once no body is left.
  pub serving_bounded :
      (laws : IsSemaphore env.semaphore) (budget_bytes max_body_bytes : ℕ)
      (state : AppState F V M S C H G) (w : Serving F V M S C H G)
      → budget_bytes ≤ u64_max
      → max_body_bytes ≤ u32_max * 1024
      → state.budget ≡ new_budget env.semaphore budget_bytes max_body_bytes
      → IsReady state
      → Steps env (record { state = state; lives = []; waiting = [] }) w
      → (total_bytes (bodies_of w.lives) ≤ max budget_bytes 1024)
        × (available_permits env.semaphore w.state.budget + total_owned (bodies_of w.lives)
            ≡ state.budget.permits)
        × (w.lives ≡ [] → available_permits env.semaphore w.state.budget ≡ state.budget.permits)
  serving_bounded laws budget_bytes max_body_bytes state w h k fresh ready reached =
      let first : Serving F V M S C H G = record { state = state; lives = []; waiting = [] } in
      let flown = serving_refines first w (record { ready = ready; slots = tt }) reached in
      let from_start =
        subst (λ b. InFlight.Steps env.semaphore (record { budget = b; bodies = [] }) (flights w))
          fresh flown in
      let (bytes, balance) =
        in_flight_bounded env.semaphore laws budget_bytes max_body_bytes (flights w) h k
          from_start in
      let same = ap (λ b. b.permits) fresh in
      let total = balance ∙ sym same in
      (
        bytes,
        total,
        λ none_left. omega (arith, total, ap (λ l. total_owned (bodies_of l)) none_left),
      )
