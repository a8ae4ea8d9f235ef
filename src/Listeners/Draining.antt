-- ===== src/Listeners/Draining.antt =====
-- A listener runs until its shutdown, and then for the timeout at most.
use sturnus.Prelude.{
  ◌≤◌, ◌≡◌, ◌↔◌, refl, sym, ◌∙◌, Bool, true, false, List, [], ◌∷◌, ◌++◌, Option, none, some,
  some-injective, max, leb, All, arith, ok, err, false≢true, Bool-cases, inl, inr, leb→le,
}
use sturnus.Prelude.Partial.{>>=-eq-some}
use sturnus.Tracker.{Duration}
use sturnus.Listeners.{
  Connection, Seen, accepted, shutdown, waiting, leaving, accept_loop, all_drained, Ending, drained,
  drain_or_timeout, running, ended, run_from, run_server_with_role,
}

-- A connection that drains in time.
abbrev pub InTime : Duration → Connection → Type 0
InTime timeout conn = (t : Duration) × (conn ≡ some t) × (t ≤ timeout)

module _ {E : Type 0} where
  abbrev pub is_accepted : Seen E → Bool
  is_accepted (accepted _) = true
  is_accepted shutdown = false

  -- The connections that were accepted; an error is none.
  abbrev pub connections : List (Seen E) → List Connection
  connections [] = []
  connections (accepted (ok conn) ∷ rest) = conn ∷ connections rest
  connections (accepted (err e) ∷ rest) = connections rest
  connections (shutdown ∷ rest) = connections rest

  module _ (P : Connection → Type 0) where
    left_with :
        (watched : List Connection) (before later : List (Seen E))
        → All (λ s. is_accepted s ≡ true) before
        → (all : List Connection) × (accept_loop watched (before ++ shutdown ∷ later) ≡ leaving all)
          × (All P all ↔ (All P watched × All P (connections before)))
    unfolding accept_loop
    left_with watched [] later _ = (watched, refl, (λ p. (p, tt), λ (p, _). p))
    left_with watched (shutdown ∷ before) later (never, _) = absurd (false≢true never)
    left_with watched (accepted (err e) ∷ before) later (_, rest) =
        left_with watched before later rest
    left_with watched (accepted (ok conn) ∷ before) later (_, rest) =
        let (all, left, (to, from)) = left_with (conn ∷ watched) before later rest in
        (
          all,
          left,
          (
            λ p. let ((here, w), others) = to p in (w, (here, others)),
            λ (w, (here, others)). from ((here, w), others),
          ),
        )

  still_waiting :
      (watched : List Connection) (before : List (Seen E))
      → All (λ s. is_accepted s ≡ true) before
      → (all : List Connection) × (accept_loop watched before ≡ waiting all)
  unfolding accept_loop
  still_waiting watched [] _ = (watched, refl)
  still_waiting watched (shutdown ∷ before) (never, _) = absurd (false≢true never)
  still_waiting watched (accepted (err e) ∷ before) (_, rest) = still_waiting watched before rest
  still_waiting watched (accepted (ok conn) ∷ before) (_, rest) =
      still_waiting (conn ∷ watched) before rest

all_drained_iff :
    (timeout : Duration) (conns : List Connection)
    → ((t : Duration) × (all_drained conns ≡ some t) × (t ≤ timeout)) ↔ All (InTime timeout) conns
unfolding all_drained
all_drained_iff timeout [] = (λ _. tt, λ _. (0, refl, omega arith))
all_drained_iff timeout (conn ∷ conns) = (
  λ (t, e, h).
      let (now, e1, f1) = >>=-eq-some conn _ e in
      let (later, e2, f2) = >>=-eq-some (all_drained conns) _ f1 in
      let same = some-injective _ _ f2 in
      (
        (now, e1, omega (arith, same, h)),
        (all_drained_iff timeout conns).0 (later, e2, omega (arith, same, h)),
      ),
  λ ((now, e1, h1), rest).
      let (later, e2, h2) = (all_drained_iff timeout conns).1 rest in
      (max now later, rw (e1, e2) refl, omega (arith, h1, h2)),
)

drain_lem :
    (timeout : Duration) (conns : List Connection)
    → let (ending, took) = drain_or_timeout (all_drained conns) timeout in
      (took ≤ timeout) × ((ending ≡ drained) ↔ All (InTime timeout) conns)
unfolding drain_or_timeout
drain_lem timeout conns = go (all_drained conns) refl
  where
    go :
        (o : Option Duration)
        → all_drained conns ≡ o
        → let (ending, took) = drain_or_timeout o timeout in
          (took ≤ timeout) × ((ending ≡ drained) ↔ All (InTime timeout) conns)
    go none e =
        (omega arith, (λ bad. cc, λ p. let (t, f, _) = (all_drained_iff timeout conns).1 p in cc))
    go (some t) e = elim (Bool-cases (leb t timeout)) [
      | inl in_time ↦ rw in_time (
        leb→le t timeout in_time,
        (λ _. (all_drained_iff timeout conns).0 (t, e, leb→le t timeout in_time), λ _. refl),
      )
      | inr late ↦ rw late (
        omega arith,
        (
          λ bad. cc,
          λ p.
              let (s, f, h) = (all_drained_iff timeout conns).1 p in
              absurd (ground (arith, late, h, some-injective _ _ (sym e ∙ f))),
        ),
      )
    ]

-- A listener accepts connections, past any errors, until its shutdown is seen, and only then sets
-- the flag. It ends no later than the timeout after that, whatever the connections do, and ends
-- drained exactly when every connection that it accepted has drained in time.
pub run_server_lem :
    {E : Type 0} (before later : List (Seen E)) (timeout : Duration) (flag : Bool)
    → All (λ s. is_accepted s ≡ true) before
    → (run_server_with_role before timeout flag ≡ (running, flag))
      × ((ending : Ending) × (took : Duration) × (run_server_with_role
              (before ++ shutdown ∷ later)
              timeout
              flag
            ≡ (ended ending took, true))
          × (took ≤ timeout)
          × ((ending ≡ drained) ↔ All (InTime timeout) (connections before)))
unfolding run_server_with_role run_from
run_server_lem before later timeout flag accepting =
    let (open_ones, waits) = still_waiting [] before accepting in
    let (all, left, (to, from)) = left_with (InTime timeout) [] before later accepting in
    let (bound, (drains, in_time)) = drain_lem timeout all in
    (
      rw waits refl,
      rw left (_, _, refl, bound, (λ e. (to (drains e)).1, λ p. in_time (from (tt, p)))),
    )
