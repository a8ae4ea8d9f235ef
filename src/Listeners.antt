-- ===== src/Listeners.antt =====
-- src/server.rs: `run_servers`, `run_server_with_role` and the roles of the listeners.
-- The network is the list of what `select!` sees, in order: a connection or an error from `accept`,
-- or the end of the `shutdown` future. A connection is the time after the shutdown at which it has
-- drained, or none if it never does.
pub mod Draining
pub mod Roles
pub mod Shutdown
pub mod Tests
use sturnus.Prelude.{
  ℕ, Bool, true, false, List, [], ◌∷◌, String, Option, none, some, max, leb, if◌then◌else◌, Result,
  ok, err,
}
use sturnus.Prelude.Partial.{◌>>=◌}
use sturnus.F64.{F64}
use sturnus.Tracker.{Duration}
use sturnus.Server.{AppState, Env, Response}
use sturnus.Server.Observability.{handle_observability_request}
use sturnus.Server.Request.{Incoming}
use sturnus.Server.Handle.{World, handle_request}

pub data ServerRole : Type 0 where
  full observability : ServerRole

module _ {F V M S C H J R E G : Type 0} ⦃d : F64 F⦄ (env : Env F V M S C H J R E)
    (world : World M E) where
  -- The service of a connection.
  unfoldable pub serve :
      ServerRole
      → AppState F V M S C H G
      → Incoming M
      → Option (AppState F V M S C H G × Response M)
  serve full state req = handle_request env world state req
  serve observability state req = do
    response ← handle_observability_request env state req.method req.path
    some (state, response)

abbrev pub Connection : Type 0
Connection = Option Duration

pub data Seen (E : Type 0) : Type 0 where
  accepted : Result E Connection → Seen E
  shutdown : Seen E

-- Where the loop is: still waiting, or out of it with the connections to drain.
pub data Looped : Type 0 where
  waiting leaving : List Connection → Looped

module _ {E : Type 0} where
  -- The loop over `select!`, with the connections that are watched.
  unfoldable pub accept_loop : List Connection → List (Seen E) → Looped
  accept_loop watched [] = waiting watched
  accept_loop watched (accepted (err e) ∷ rest) = accept_loop watched rest
  accept_loop watched (accepted (ok conn) ∷ rest) = accept_loop (conn ∷ watched) rest
  accept_loop watched (shutdown ∷ rest) = leaving watched

-- `graceful.shutdown()`: when all watched connections have drained.
unfoldable pub all_drained : List Connection → Option Duration
all_drained [] = some 0
all_drained (conn ∷ rest) = do t ← conn; later ← all_drained rest; some (max t later)

pub data Ending : Type 0 where
  drained timed_out : Ending

-- The last `select!`, with the time that it took.
unfoldable pub drain_or_timeout : Option Duration → Duration → Ending × Duration
drain_or_timeout none shutdown_timeout = (timed_out, shutdown_timeout)
drain_or_timeout (some t) shutdown_timeout =
    if leb t shutdown_timeout then (drained, t) else (timed_out, shutdown_timeout)

-- What a run has come to: it goes on, or it has ended.
pub data Run : Type 0 where
  running : Run
  ended : Ending → Duration → Run

run_from : Looped → Duration → Bool → Run × Bool
unfolding all_drained drain_or_timeout
run_from (waiting watched) shutdown_timeout shutting_down = (running, shutting_down)
run_from (leaving watched) shutdown_timeout shutting_down =
    let (ending, took) = drain_or_timeout (all_drained watched) shutdown_timeout in
    (ended ending took, true)

-- The run of a listener, and the flag that it sets.
unfoldable pub run_server_with_role : {E : Type 0} → List (Seen E) → Duration → Bool → Run × Bool
unfolding run_from accept_loop
run_server_with_role seen shutdown_timeout shutting_down =
    run_from (accept_loop [] seen) shutdown_timeout shutting_down
