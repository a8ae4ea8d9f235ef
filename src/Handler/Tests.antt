-- ===== src/Handler/Tests.antt =====
-- Runs of the choice and the recording, and the theorems where they apply.
use sturnus.Prelude.{
  ◌≡◌, refl, String, [], ◌∷◌, none, some, nat_eq, string_eq, ℕ_discrete, Result, ok,
}
use sturnus.F64.Fixed.{fixed_f64}
use sturnus.Tracker.{streaming, is_degraded, stats_at}
use sturnus.Router.{RoundRobinState, exploit_k}
use sturnus.Router.Sample.{fast, slow, tracker}
use sturnus.Proxy.Request.{total, ProxyResult, ForwardError, full}
use sturnus.Handler.{choose, affinity_of}
use sturnus.Http.Table.{table_http}

affinity_test :
    (affinity_of table_http (some "slow/m/x") ≡ some ("slow", "m/x"))
    × (affinity_of table_http (some "slow") ≡ none)
unfolding affinity_of table_http nat_eq ℕ_discrete
affinity_test = (refl, refl)

abbrev state : RoundRobinState
state = record { counters = ("chat", 0) ∷ [] }

pin_test :
    choose "chat" (fast ∷ slow ∷ []) tracker state exploit_k streaming (some ("slow", "m"))
    ≡ some (some slow, state)
unfolding choose string_eq fixed_f64 is_degraded stats_at
pin_test = refl

abbrev response : Result (ForwardError String) (ProxyResult String)
response = ok (record { status = 200; headers = ""; body = full []; latency = total 50_000_000 })
