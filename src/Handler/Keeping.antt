-- ===== src/Handler/Keeping.antt =====
-- A result that is recorded keeps the tracker valid and its slots.
use sturnus.Prelude.{
  ℕ, ◌<◌, ◌≡◌, refl, sym, ◌∙◌, subst, [], ◌∷◌, some, length, some-injective, Result, ok, err,
  Bool-cases, inl, inr, if◌then◌else◌,
}
use sturnus.F64.{F64, IsIeee}
use sturnus.Tracker.{Tracker}
use sturnus.Tracker.Invariant.{IsValid, Event, succeeds, fails, happen, happen-IsValid, Fits}
use sturnus.Handler.{is_success, observed, record_result}
use sturnus.Proxy.Request.{ForwardError, ProxyResult}

-- A result as an event of the tracker.
event_of : {M E : Type 0} → ℕ → Result (ForwardError E) (ProxyResult M) → Event
event_of index (err e) = fails index
event_of index (ok r) =
    if is_success r.status
    then succeeds index (observed r.latency).0 (observed r.latency).1
    else fails index

event_of-Fits :
    {M E : Type 0} (n index other : ℕ) (result : Result (ForwardError E) (ProxyResult M))
    → index < n
    → other < n
    → Fits n (event_of index result ∷ fails other ∷ [])
unfolding event_of
event_of-Fits n index other (err e) h k = (h, (k, tt))
event_of-Fits n index other (ok r) h k = elim (Bool-cases (is_success r.status)) [
  | inl good ↦ rw good (h, (k, tt))
  | inr bad ↦ rw bad (h, (k, tt))
]

module _ {F : Type 0} ⦃d : F64 F⦄ {M E : Type 0} where
  record_result-happen :
      (t : Tracker F) (index : ℕ) (result : Result (ForwardError E) (ProxyResult M))
      → record_result t index result ≡ happen t (event_of index result)
  unfolding record_result happen event_of
  record_result-happen t index (err e) = refl
  record_result-happen t index (ok r) = elim (Bool-cases (is_success r.status)) [
    | inl good ↦ rw good refl
    | inr bad ↦ rw bad refl
  ]

  -- What recording a result keeps.
  pub record_result_keeps :
      (ieee : IsIeee F) (t after : Tracker F) (index : ℕ)
      (result : Result (ForwardError E) (ProxyResult M))
      → IsValid t
      → index < length t.stats
      → record_result t index result ≡ some after
      → IsValid after × ((other : ℕ) → other < length t.stats → other < length after.stats)
  record_result_keeps ieee t after index result v h e =
      ((kept index h).0, λ other k. (kept other k).1)
    where
      kept : (other : ℕ) → other < length t.stats → IsValid after × (other < length after.stats)
      kept other k =
          let (t', now, v', (fits, _)) =
            happen-IsValid ieee t (length t.stats) (event_of index result) (fails other ∷ []) refl v
              (event_of-Fits (length t.stats) index other result h k) in
          let same : t' ≡ after =
            some-injective _ _ (sym now ∙ sym (record_result-happen t index result) ∙ e) in
          subst (λ x. IsValid x × (other < length x.stats)) same (v', fits)
