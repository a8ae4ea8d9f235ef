-- ===== src/Server/Serving.antt =====
-- Requests in flight together: the shared state, the bodies that own permits, and the requests that
-- wait for the upstream. Each step runs one request between two points where it waits, in any order.
use sturnus.Prelude.{ℕ, ◌≡◌, List, ◌∷◌, Option, some, true, Result, Takes, Replaces}
use sturnus.F64.{F64}
use sturnus.Admission.InFlight.{Body}
use sturnus.Proxy.{Bytes}
use sturnus.Proxy.Request.{ForwardError, ProxyResult}
use sturnus.Server.{AppState, Env, Response}
use sturnus.Server.Request.{
  Incoming, ReadFailure, answered, reading, Forwarding, rejected, forwarding,
}
use sturnus.Server.Stages.{begin, route, give_back, finish}

-- Where a body is: it is read, and then it is the outbound one.
pub data Stage (V : Type 0) : Type 0 where
  being_read : (affinity : Option V) → Stage V
  outbound : Stage V

pub record Live (V : Type 0) : Type 0 where
  pub body : Body
  pub stage : Stage V

pub record Serving (F V M S C H G : Type 0) : Type 0 where
  pub state : AppState F V M S C H G
  pub lives : List (Live V)
  pub waiting : List (Forwarding V M)

module _ {F V M S C H J R E G : Type 0} ⦃d : F64 F⦄ (env : Env F V M S C H J R E) where
  pub data Step : Serving F V M S C H G → Serving F V M S C H G → Type 0 where
    answers :
        {w : Serving F V M S C H G} {after : AppState F V M S C H G} (req : Incoming M)
        (response : Response M)
        → begin env w.state req ≡ some (after, answered response)
        → Step w (record w { state = after })
    admits :
        {w : Serving F V M S C H G} {after : AppState F V M S C H G} (req : Incoming M) (bytes : ℕ)
        (owned : ℕ) (affinity : Option V)
        → req.declared_len ≡ some bytes
        → begin env w.state req ≡ some (after, reading owned affinity)
        → Step w (record w {
          state = after;
          lives =
              record { body = record { bytes = bytes; owned = owned }; stage = being_read affinity }
              ∷ w.lives;
        })
    rejects :
        {w : Serving F V M S C H G} {after : AppState F V M S C H G} {others : List (Live V)}
        (body : Body) (affinity : Option V) (read : Result ReadFailure Bytes)
        (response : Response M)
        → Takes w.lives (record { body = body; stage = being_read affinity }) others
        → route env w.state body.owned affinity read ≡ some (after, rejected response)
        → Step w (record w { state = after; lives = others })
    forwards :
        {w : Serving F V M S C H G} {after : AppState F V M S C H G} {lives : List (Live V)}
        (body : Body) (affinity : Option V) (read : Result ReadFailure Bytes) (f : Forwarding V M)
        → Replaces w.lives
            (record { body = body; stage = being_read affinity })
            (record { body = body; stage = outbound })
            lives
        → route env w.state body.owned affinity read ≡ some (after, forwarding f)
        → Step w (record { state = after; lives = lives; waiting = f ∷ w.waiting })
    -- A client is gone while its body is read, or an outbound body is dropped.
    drops :
        {w : Serving F V M S C H G} {x : Live V} {others : List (Live V)}
        → Takes w.lives x others
        → Step w (record w { state = give_back env w.state x.body.owned; lives = others })
    finishes :
        {w : Serving F V M S C H G} {after : AppState F V M S C H G} {f : Forwarding V M}
        {others : List (Forwarding V M)} (result : Result (ForwardError E) (ProxyResult M))
        (response : Response M)
        → Takes w.waiting f others
        → finish env w.state f result ≡ some (after, response)
        → Step w (record w { state = after; waiting = others })
    -- A client is gone while its request waits for the upstream.
    abandons :
        {w : Serving F V M S C H G} {f : Forwarding V M} {others : List (Forwarding V M)}
        → Takes w.waiting f others
        → Step w (record w { waiting = others })
    -- The listener begins to shut down.
    shuts_down :
        {w : Serving F V M S C H G}
        → Step w (record w { state = record w.state { shutting_down = true } })

  pub data Steps : Serving F V M S C H G → Serving F V M S C H G → Type 0 where
    stay : {w : Serving F V M S C H G} → Steps w w
    step : {u v w : Serving F V M S C H G} → Step u v → Steps v w → Steps u w
