-- ===== src/Listeners/Tests.antt =====
-- Listeners over a few events, and the theorems where they apply.
use sturnus.Prelude.{
  ℕ, suc, ◌≤◌, ◌≡◌, ◌↔◌, ◌⊎◌, refl, true, false, String, List, [], ◌∷◌, ◌++◌, none, some, All, ok,
  err, string_eq, ◌==◌,
}
use sturnus.F64.Fixed.{fixed_f64}
use sturnus.Http.Table.{Table}
use sturnus.Server.{Response, json_error, not_found}
use sturnus.Server.Fixtures.{post}
use sturnus.Server.Handle.{World}
use sturnus.Proxy.Request.{send_error}
use sturnus.Startup.Sample.{SampleState, env, state}
use sturnus.Listeners.{
  full, observability, serve, Seen, accepted, shutdown, Ending, drained, timed_out, running, ended,
  run_server_with_role, all_drained, drain_or_timeout, accept_loop,
}
use sturnus.Listeners.Draining.{InTime, connections, run_server_lem}
use sturnus.Listeners.Roles.{roles_agree}
use sturnus.Listeners.Shutdown.{
  draining, Servers, launched, Move, signalled, Moves, stay, move, remaining, shutdown_ends,
}

-- Two connections with an error between them.
abbrev seen : List (Seen String)
seen = accepted (ok (some 2)) ∷ accepted (err "too many open files") ∷ accepted (ok (some 9)) ∷ []

run_test :
    (run_server_with_role (seen ++ shutdown ∷ []) 10 false ≡ (ended drained 9, true))
    × (run_server_with_role (seen ++ shutdown ∷ []) 5 false ≡ (ended timed_out 5, true))
unfolding run_server_with_role all_drained drain_or_timeout accept_loop
run_test = (refl, refl)

run_server_lem_example :
    (run_server_with_role seen 5 false ≡ (running, false))
    × ((ending : Ending) × (took : ℕ) × (run_server_with_role
            (seen ++ shutdown ∷ accepted (ok none) ∷ [])
            5
            false
          ≡ (ended ending took, true))
        × (took ≤ 5)
        × ((ending ≡ drained) ↔ All (InTime 5) (connections seen)))
run_server_lem_example =
    run_server_lem seen (accepted (ok none) ∷ []) 5 false (refl, (refl, (refl, tt)))

abbrev world : World Table String
world = record { read = ok []; respond_to = λ r. err (send_error "refused"); token = none }

roles_agree_example :
    ((post.method == "GET") ≡ true
      → serve env world full state post ≡ serve env world observability state post)
    × ((post.method == "GET") ≡ false
        → serve env world observability state post ≡ some (state, json_error env 404 not_found))
    × ((after : SampleState) (response : Response Table)
        → serve env world observability state post ≡ some (after, response)
        → after ≡ state)
roles_agree_example = roles_agree env world state post

abbrev leaving : Servers
leaving = record launched { proxy = draining; shutting_down = true }

left : Moves launched leaving
left = move (signalled refl) stay

shutdown_ends_example :
    ((t : Servers) × Moves leaving t × (t.returned ≡ true))
    × (remaining leaving ≤ 5)
    × ((t : Servers) → Move leaving t → (leaving ≡ t) ⊎ (remaining leaving ≡ suc (remaining t)))
shutdown_ends_example = shutdown_ends leaving left (λ e. cc)
