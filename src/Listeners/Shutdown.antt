-- ===== src/Listeners/Shutdown.antt =====
-- `run_servers`: the proxy, and the observability listener that outlives it.
use sturnus.Prelude.{
  ℕ, zero, suc, Bool-cases, ◌+◌, ◌≤◌, ◌≡◌, ◌≢◌, ◌↔◌, refl, Bool, true, false, arith, ◌⊎◌, inl, inr,
}
use sturnus.Prelude.{String, Result, ok}
use sturnus.F64.{F64}
use sturnus.Startup.Healthcheck.{ProbeError, run_healthcheck}
use sturnus.Server.{AppState, Env}
use sturnus.Server.Observability.{health}

-- The phases of `run_server_with_role`: its loop, its drain, and its end.
pub data Phase : Type 0 where
  looping draining stopped : Phase

-- Both listeners with the shared flag, the message of `obs_tx`, and whether `run_servers` has
-- returned.
pub record Servers : Type 0 where
  pub proxy : Phase
  pub metrics : Phase
  pub shutting_down : Bool
  pub obs_sent : Bool
  pub returned : Bool

-- `run_servers` with a metrics listener, at its start.
abbrev pub launched : Servers
launched = record {
  proxy = looping;
  metrics = looping;
  shutting_down = false;
  obs_sent = false;
  returned = false;
}

-- One step of either task, of the process that runs them, or of both listeners' clients.
pub data Move : Servers → Servers → Type 0 where
  -- An `accept` of either loop, or a response.
  proxy_accepts : {s : Servers} → s.proxy ≡ looping → Move s s
  metrics_accepts : {s : Servers} → s.metrics ≡ looping → Move s s
  -- The `shutdown` future of the process ends.
  signalled :
      {s : Servers}
      → s.proxy ≡ looping
      → Move s (record s { proxy = draining; shutting_down = true })
  -- All connections of the proxy have drained, or the timeout is over.
  proxy_ends : {s : Servers} → s.proxy ≡ draining → Move s (record s { proxy = stopped })
  -- `obs_tx.send(())`, after the proxy's run.
  sends :
      {s : Servers} → s.proxy ≡ stopped → s.obs_sent ≡ false → Move s (record s { obs_sent = true })
  metrics_stops :
      {s : Servers}
      → s.obs_sent ≡ true
      → s.metrics ≡ looping
      → Move s (record s { metrics = draining; shutting_down = true })
  metrics_ends : {s : Servers} → s.metrics ≡ draining → Move s (record s { metrics = stopped })
  -- `observability.await`
  returns :
      {s : Servers}
      → s.obs_sent ≡ true
      → s.metrics ≡ stopped
      → s.returned ≡ false
      → Move s (record s { returned = true })

pub data Moves : Servers → Servers → Type 0 where
  stay : {s : Servers} → Moves s s
  move : {s t u : Servers} → Move s t → Moves t u → Moves s u

pub record InOrder (s : Servers) : Type 0 where
  pub sent_after : s.obs_sent ≡ true → s.proxy ≡ stopped
  pub outlives : s.metrics ≢ looping → s.obs_sent ≡ true
  pub flagged : (s.shutting_down ≡ false) ↔ (s.proxy ≡ looping)
  pub done : s.returned ≡ true → s.metrics ≡ stopped

Move-InOrder : (s t : Servers) → Move s t → InOrder s → InOrder t
Move-InOrder s _ (proxy_accepts _) v = v
Move-InOrder s _ (metrics_accepts _) v = v
Move-InOrder s _ (signalled e) v = record {
  sent_after = λ h. let p = v.sent_after h in cc;
  outlives = v.outlives;
  flagged = (λ h. cc, λ h. cc);
  done = v.done;
}
Move-InOrder s _ (proxy_ends e) v = record {
  sent_after = λ h. refl;
  outlives = v.outlives;
  flagged = (λ h. let p = v.flagged.0 h in cc, λ h. cc);
  done = v.done;
}
Move-InOrder s _ (sends e f) v = record {
  sent_after = λ h. e;
  outlives = λ h. refl;
  flagged = v.flagged;
  done = v.done;
}
Move-InOrder s _ (metrics_stops e f) v = record {
  sent_after = v.sent_after;
  outlives = λ h. e;
  flagged = (λ h. cc, λ h. let p = v.sent_after e in cc);
  done = λ h. let p = v.done h in cc;
}
Move-InOrder s _ (metrics_ends e) v = record {
  sent_after = v.sent_after;
  outlives = λ h. v.outlives (λ p. cc);
  flagged = v.flagged;
  done = λ h. refl;
}
Move-InOrder s _ (returns e f g) v = record {
  sent_after = v.sent_after;
  outlives = v.outlives;
  flagged = v.flagged;
  done = λ h. f;
}

Moves-InOrder : (s t : Servers) → Moves s t → InOrder s → InOrder t
Moves-InOrder s _ stay v = v
Moves-InOrder s t (move m rest) v = Moves-InOrder _ t rest (Move-InOrder s _ m v)

launched-InOrder : InOrder launched
launched-InOrder = record {
  sent_after = λ h. cc;
  outlives = λ h. absurd (h refl);
  flagged = (λ h. refl, λ h. refl);
  done = λ h. cc;
}

bool_or : (b : Bool) → b ≢ false → b ≡ true
bool_or true n = refl
bool_or false n = absurd (n refl)

module _ {F V M S C H J R E G : Type 0} ⦃d : F64 F⦄ (env : Env F V M S C H J R E)
    (state : AppState F V M S C H G) where
  abbrev pub health_of : Servers → ℕ
  health_of s = (health env (record state { shutting_down = s.shutting_down })).status

  -- What the `healthcheck` command comes to.
  abbrev pub probe_of : String → Servers → Result (ProbeError E) (Unit {0})
  probe_of port s = run_healthcheck port (λ url. ok (health_of s))

abbrev phase_rank : Phase → ℕ
phase_rank looping = 2
phase_rank draining = 1
phase_rank stopped = 0

abbrev flag_rank : Bool → ℕ
flag_rank true = 0
flag_rank false = 1

phase_rank_le : (p : Phase) → phase_rank p ≤ 2
phase_rank_le looping = omega arith
phase_rank_le draining = omega arith
phase_rank_le stopped = omega arith

flag_rank_le : (b : Bool) → flag_rank b ≤ 1
flag_rank_le true = omega arith
flag_rank_le false = omega arith

-- The moves that are left until `run_servers` has returned.
abbrev pub remaining : Servers → ℕ
remaining s =
    phase_rank s.proxy + phase_rank s.metrics + flag_rank s.obs_sent + flag_rank s.returned

few_left :
    (p q : Phase) (a b : Bool)
    → p ≢ looping
    → phase_rank p + phase_rank q + flag_rank a + flag_rank b ≤ 5
few_left looping q a b leaving = absurd (leaving refl)
few_left draining q a b leaving = omega (arith, phase_rank_le q, flag_rank_le a, flag_rank_le b)
few_left stopped q a b leaving = omega (arith, phase_rank_le q, flag_rank_le a, flag_rank_le b)

-- A move towards the end.
abbrev Ahead : Servers → Type 0
Ahead s = (t : Servers) × Move s t × (t.proxy ≢ looping) × (remaining s ≡ suc (remaining t))

ahead : (s : Servers) → InOrder s → s.proxy ≢ looping → s.returned ≡ false → Ahead s
ahead s v leaving unfinished = by_proxy s.proxy refl
  where
    by_metrics : (p : Phase) → s.metrics ≡ p → s.obs_sent ≡ true → Ahead s
    by_metrics looping e sent = (_, metrics_stops sent e, leaving, rw e (omega arith))
    by_metrics draining e sent = (_, metrics_ends e, leaving, rw e (omega arith))
    by_metrics stopped e sent = (_, returns sent e unfinished, leaving, rw unfinished (omega arith))

    by_sent : (b : Bool) → s.obs_sent ≡ b → s.proxy ≡ stopped → Ahead s
    by_sent true e ended = by_metrics s.metrics refl e
    by_sent false e ended = (_, sends ended e, leaving, rw e (omega arith))

    by_proxy : (p : Phase) → s.proxy ≡ p → Ahead s
    by_proxy looping e = absurd (leaving e)
    by_proxy draining e = (_, proxy_ends e, (λ p. cc), rw e (omega arith))
    by_proxy stopped e = by_sent s.obs_sent refl e

lowers : (s t : Servers) → Move s t → (s ≡ t) ⊎ (remaining s ≡ suc (remaining t))
lowers s _ (proxy_accepts e) = inl refl
lowers s _ (metrics_accepts e) = inl refl
lowers s _ (signalled e) = inr (rw e (omega arith))
lowers s _ (proxy_ends e) = inr (rw e (omega arith))
lowers s _ (sends e f) = inr (rw f (omega arith))
lowers s _ (metrics_stops e f) = inr (rw f (omega arith))
lowers s _ (metrics_ends e) = inr (rw e (omega arith))
lowers s _ (returns e f g) = inr (rw g (omega arith))

unreturned : (s : Servers) → s.returned ≡ false → 1 ≤ remaining s
unreturned s e = rw e (omega arith)

-- `n` bounds the moves that are left.
finishes :
    (n : ℕ) (s : Servers)
    → remaining s ≤ n
    → InOrder s
    → s.proxy ≢ looping
    → (t : Servers) × Moves s t × (t.returned ≡ true)
finishes zero s few v leaving =
    (s, stay, bool_or s.returned (λ e. absurd (omega (arith, few, unreturned s e))))
finishes (suc n) s few v leaving = elim (Bool-cases s.returned) [
  | inl back ↦ (s, stay, back)
  | inr unfinished ↦
      let (t, m, left, less) = ahead s v leaving unfinished in
      let (u, rest, back) = finishes n t (omega (arith, few, less)) (Move-InOrder s t m v) left in
      (u, move m rest, back)
]

-- Once the shutdown signal is seen, the process can always go on to the end: from any state that
-- the listeners reach there are moves after which `run_servers` has returned, at most five of them,
-- since every move but accepting a connection lowers the number of moves that are left.
pub shutdown_ends :
    (s : Servers)
    → Moves launched s
    → s.proxy ≢ looping
    → ((t : Servers) × Moves s t × (t.returned ≡ true))
      × (remaining s ≤ 5)
      × ((t : Servers) → Move s t → (s ≡ t) ⊎ (remaining s ≡ suc (remaining t)))
shutdown_ends s reached leaving =
    let v = Moves-InOrder launched s reached launched-InOrder in
    (
      finishes (remaining s) s (omega arith) v leaving,
      few_left s.proxy s.metrics s.obs_sent s.returned leaving,
      λ t m. lowers s t m,
    )
