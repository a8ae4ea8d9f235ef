-- ===== src/Server/Tests.antt =====
-- Requests on the state that startup makes of the sample configuration, and the theorems where they
-- apply.
use sturnus.Prelude.{
  ℕ, ◌+◌, ◌≤◌, ◌≡◌, refl, String, [], ◌∷◌, none, some, arith, max, at_head, ok, err, string_eq,
  nat_eq,
}
use sturnus.F64.Fixed.{Fixed, fixed_f64}
use sturnus.F64.FixedLaws.{fixed-IsIeee}
use sturnus.Http.Table.{Table}
use sturnus.Admission.{new_budget, available_permits}
use sturnus.Admission.Permits.{counting, counting-IsSemaphore}
use sturnus.Config.Budget.{buffer_budget_bytes}
use sturnus.Startup.{app_state}
use sturnus.Startup.Sample.{env, state, state-IsReady}
use sturnus.Proxy.Request.{send_error}
use sturnus.Admission.InFlight
use sturnus.Admission.InFlight.{total_bytes, total_owned}
use sturnus.Metrics.Table.{Series}
use sturnus.Credentials.{GcpTokenProvider}
use sturnus.Server.Permits.{bodies_of, flights, serving_refines, serving_bounded}
use sturnus.Server.Handle.{World, handle_request}
use sturnus.Server.Total.{Answers, handle_request-total}
use sturnus.Server.Serving.{
  Serving, Live, being_read, outbound, Steps, admits, forwards, stay, step,
}
use sturnus.Server.Fixtures.{post, two_taken, began, sent, body_read}

-- The request and its body, on its way to the upstream.
abbrev live : Live String
live = record { body = record { bytes = 2000; owned = 2 }; stage = being_read (some "local/llama") }

abbrev on_its_way :
    Serving Fixed String Table ℕ (Series ℕ) (Series (ℕ × Fixed)) (GcpTokenProvider String)
on_its_way = record {
  state = two_taken;
  lives = record live { stage = outbound } ∷ [];
  waiting = sent ∷ [];
}

abbrev idle : Serving Fixed String Table ℕ (Series ℕ) (Series (ℕ × Fixed)) (GcpTokenProvider String)
idle = record { state = state; lives = []; waiting = [] }

reached : Steps env idle on_its_way
reached = step (admits post 2000 2 (some "local/llama") refl began) (
    step
      (forwards (record { bytes = 2000; owned = 2 }) (some "local/llama") (ok (1 ∷ 2 ∷ [])) sent
        at_head body_read)
      stay)

serving_refines_example : InFlight.Steps env.semaphore (flights idle) (flights on_its_way)
serving_refines_example =
    serving_refines env fixed-IsIeee idle on_its_way (record { ready = state-IsReady; slots = tt })
      reached

serving_bounded_example :
    (total_bytes (bodies_of on_its_way.lives) ≤ max 134217728 1024)
    × (available_permits env.semaphore on_its_way.state.budget
          + total_owned (bodies_of on_its_way.lives)
        ≡ state.budget.permits)
    × (on_its_way.lives ≡ []
        → available_permits env.semaphore on_its_way.state.budget ≡ state.budget.permits)
unfolding app_state new_budget buffer_budget_bytes
serving_bounded_example =
    serving_bounded env fixed-IsIeee counting-IsSemaphore 134217728 33554432 state on_its_way
      (omega arith) (omega arith) refl state-IsReady reached

abbrev world : World Table String
world = record {
  read = ok (1 ∷ 2 ∷ []);
  respond_to = λ r. err (send_error "refused");
  token = none;
}

handle_request-total_example :
    Answers env fixed-IsIeee counting-IsSemaphore world state (handle_request env world state post)
unfolding app_state available_permits new_budget buffer_budget_bytes counting
handle_request-total_example =
    handle_request-total env fixed-IsIeee counting-IsSemaphore world state post state-IsReady
      (omega arith)
