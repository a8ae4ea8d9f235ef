-- ===== src/Startup/Healthcheck.antt =====
-- src/main.rs: the `healthcheck` command. The status, or the error of the client, is an argument.
use sturnus.Prelude.{ℕ, String, ◌<>◌, Result, ok, err, ◌>>=◌, bail_if, not}
use sturnus.Handler.{is_success}

pub data ProbeError (E : Type 0) : Type 0 where
  no_response : E → ProbeError E
  unhealthy : (url : String) → (status : ℕ) → ProbeError E

abbrev or_no_response : {A E : Type 0} → Result E A → Result (ProbeError E) A
or_no_response (ok a) = ok a
or_no_response (err e) = err (no_response e)

-- `port` as it is shown.
unfoldable pub run_healthcheck :
    {E : Type 0} → String → (String → Result E ℕ) → Result (ProbeError E) (Unit {0})
run_healthcheck port get =
    let url = "http://127.0.0.1:" <> port <> "/health" in
    do status ← or_no_response (get url); bail_if (not (is_success status)) (unhealthy url status)
