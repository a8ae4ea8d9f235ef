-- ===== src/Server/Beginning.antt =====
-- What `begin` does with the budget, and that it never panics.
use sturnus.Prelude.{
  ◌≡◌, refl, Bool-cases, inl, inr, Option, some, ok, err, Result-cases, ◌==◌, string_eq,
}
use sturnus.F64.{F64}
use sturnus.Admission.{
  BufferBudget, Refusal, length_required, payload_too_large, too_many_requests, admit,
}
use sturnus.Metrics.{Metrics}
use sturnus.Server.{AppState, Env}
use sturnus.Server.Request.{Incoming, Begun, answered, reading}
use sturnus.Server.Stages.{refuse, admitted, begin}
use sturnus.Server.Ready.{IsReady, observability_get-total}

module _ {F V M S C H J R E G : Type 0} ⦃d : F64 F⦄ (env : Env F V M S C H J R E)
    (state : AppState F V M S C H G) (req : Incoming M) where
  -- What a request leaves behind when it has begun: answered, at most the metrics are new; with its
  -- body to read, the budget has admitted it.
  abbrev pub Begins : AppState F V M S C H G → Begun V M → Type 0
  Begins after (answered response) =
      (metrics : Metrics C H) × (after ≡ record state { metrics = metrics })
  Begins after (reading owned affinity) =
      (budget : BufferBudget S) × (admit env.semaphore state.budget req.declared_len
        ≡ ok (budget, owned))
      × (after ≡ record state { budget = budget })

  abbrev pub BeginsAs : Option (AppState F V M S C H G × Begun V M) → Type 0
  BeginsAs r =
      (after : AppState F V M S C H G) × (out : Begun V M) × (r ≡ some (after, out))
      × Begins after out

  refused :
      (affinity : Option V) (refusal : Refusal)
      → let r = admitted env state affinity (err refusal) in Begins r.0 r.1
  unfolding admitted refuse
  refused affinity length_required = (state.metrics, refl)
  refused affinity payload_too_large = (state.metrics, refl)
  refused affinity too_many_requests = (_, refl)

  posted :
      (affinity : Option V)
      → BeginsAs
          (some (admitted env state affinity (admit env.semaphore state.budget req.declared_len)))
  unfolding admitted
  posted affinity = elim (Result-cases (admit env.semaphore state.budget req.declared_len)) [
    | inl ((budget, owned), e) ↦ rw e (_, _, refl, (budget, e, refl))
    | inr (refusal, e) ↦ rw e (_, _, refl, refused affinity refusal)
  ]

  pub begin-total : IsReady state → BeginsAs (begin env state req)
  unfolding begin
  begin-total ready = elim (Bool-cases (req.method == "GET")) [
    | inl get ↦
        let (found, e) = observability_get-total env state ready req.path in
        rw (get, e) (_, _, refl, (state.metrics, refl))
    | inr other ↦ elim (Bool-cases (req.method == "POST")) [
      | inl post ↦ rw (other, post) (posted (env.http.remove "x-session-affinity" req.headers).1)
      | inr unknown ↦ rw (other, unknown) (_, _, refl, (state.metrics, refl))
    ]
  ]
