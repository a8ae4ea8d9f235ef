-- ===== src/Tracker/Slots.antt =====
-- Slots of the tracker: stable indices, frames, and operations of different requests that commute.
use sturnus.Prelude.{
  ℕ, ◌+◌, ◌%◌, ◌<◌, ◌≡◌, ap, ◌∙◌, sym, ◌≢◌, true, false, none, some, [], ◌∷◌, arith, length, modify,
  length-append, length-modify, lt→ltb, get_elem?-modify_self, get_elem?-modify_ne, modify_comm,
  modify_twice, get_elem?-append_left, get_elem?-append_length, get_elem?-lt, get_elem?-length,
}
use sturnus.Prelude.Partial.{◌>>=◌}
use sturnus.F64.{F64, u64_mod}
use sturnus.Tracker.{
  LatencyMode, Duration, as_millis, CandidateStats, Tracker, stats_at, new_stats, register,
  at_index, record_success, record_error, update_ewma, record_outcome,
}

module _ {F : Type 0} ⦃d : F64 F⦄ where
  pub length-register : (t : Tracker F) → length (register t).0.stats ≡ length t.stats + 1
  unfolding register
  length-register t = length-append t.stats (new_stats ∷ [])

  -- `register` returns an index that no slot had, a cold slot with a full success rate stands
  -- there, and the older slots are untouched.
  pub register-stats_at :
      (t : Tracker F)
      → (stats_at (register t).0 (register t).1 ≡ some new_stats)
        × (stats_at t (register t).1 ≡ none)
        × ((index : ℕ) (s : CandidateStats F)
            → stats_at t index ≡ some s
            → stats_at (register t).0 index ≡ some s)
  unfolding register stats_at
  register-stats_at t = (
    get_elem?-append_length t.stats new_stats,
    get_elem?-length t.stats,
    λ index s e. get_elem?-append_left t.stats _ index (get_elem?-lt t.stats index e) ∙ e,
  )

  at_index-some :
      (t : Tracker F) (index : ℕ) (f : CandidateStats F → CandidateStats F)
      → index < length t.stats
      → at_index t index f ≡ some (record t { stats = modify index f t.stats })
  unfolding at_index
  at_index-some t index f h = rw (lt→ltb _ _ h)

  -- One response, as the change that it makes to its slot.
  unfoldable pub success_change : F → LatencyMode → Duration → CandidateStats F → CandidateStats F
  success_change alpha mode observed s =
      record_outcome (update_ewma s mode (as_millis observed % u64_mod) alpha) true alpha

  pub record_success-some :
      (t : Tracker F) (index : ℕ) (mode : LatencyMode) (observed : Duration)
      → index < length t.stats
      → record_success t index mode observed
        ≡ some (record t { stats = modify index (success_change t.alpha mode observed) t.stats })
  unfolding record_success success_change at_index
  record_success-some t index mode observed h = ground (
    arith,
    length-modify index (λ s. update_ewma s mode (as_millis observed % u64_mod) t.alpha) t.stats,
    modify_twice index (λ s. update_ewma s mode (as_millis observed % u64_mod) t.alpha)
        (λ s. record_outcome s true t.alpha) t.stats,
  )

  pub record_error-some :
      (t : Tracker F) (index : ℕ)
      → index < length t.stats
      → record_error t index
        ≡ some (record t { stats = modify index (λ s. record_outcome s false t.alpha) t.stats })
  unfolding record_error at_index
  record_error-some t index h = rw (lt→ltb _ _ h)

  -- A success never panics at an index in range. It changes the slot at the index, by the latency
  -- for the mode and by a success, and no other slot.
  pub record_success_frame :
      (t : Tracker F) (index : ℕ) (mode : LatencyMode) (observed : Duration) (s : CandidateStats F)
      → stats_at t index ≡ some s
      → (t' : Tracker F) × (record_success t index mode observed ≡ some t')
        × (stats_at t' index
            ≡ some (
                record_outcome
                  (update_ewma s mode (as_millis observed % u64_mod) t.alpha)
                  true
                  t.alpha))
        × ((other : ℕ) → index ≢ other → stats_at t' other ≡ stats_at t other)
  unfolding stats_at success_change
  record_success_frame t index mode observed s e = (
    record t { stats = modify index (success_change t.alpha mode observed) t.stats },
    record_success-some t index mode observed (get_elem?-lt t.stats index e),
    get_elem?-modify_self index (success_change t.alpha mode observed) t.stats e,
    λ other h. get_elem?-modify_ne index other (success_change t.alpha mode observed) t.stats h,
  )

  -- An error of one slot and a success of another, both in range, may be recorded in either order.
  pub record_error-record_success_comm :
      (t : Tracker F) (i j : ℕ) (mode : LatencyMode) (observed : Duration)
      → i ≢ j
      → i < length t.stats
      → j < length t.stats
      → (record_error t i >>= λ t'. record_success t' j mode observed)
        ≡ (record_success t j mode observed >>= λ t'. record_error t' i)
  record_error-record_success_comm t i j mode observed ne p q =
      rw (record_error-some t i p, record_success-some t j mode observed q)
        (record_success-some _ j mode observed
            (omega (arith, q, length-modify i (λ s. record_outcome s false t.alpha) t.stats))
          ∙ ap (λ l. some (record t { stats = l }))
              (sym (
                modify_comm i j (λ s. record_outcome s false t.alpha)
                  (success_change t.alpha mode observed) t.stats ne))
          ∙ sym (
              record_error-some
                (record t { stats = modify j (success_change t.alpha mode observed) t.stats }) i
                (omega (arith, p, length-modify j (success_change t.alpha mode observed) t.stats))))
