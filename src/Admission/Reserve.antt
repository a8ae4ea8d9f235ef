-- ===== src/Admission/Reserve.antt =====
-- `reserve` and the guards around it, on every branch.
use sturnus.Prelude.{
  ℕ, ◌+◌, ◌≤◌, ◌<◌, ◌≡◌, refl, subst, none, some, arith, inl, inr, ◌⊎◌, dec_le, ok, err, ok_or,
  ok-injective,
}
use sturnus.Admission.{
  BufferBudget, length_required, payload_too_large, too_many_requests, want, reserve,
  available_permits, admit,
}
use sturnus.Admission.Permits.{Semaphore, IsSemaphore}

module _ {S : Type 0} (sem : Semaphore S) where
  -- What an admission did.
  pub record Admitted (b : BufferBudget S) (bytes : ℕ) (c : BufferBudget S) (owned : ℕ)
      : Type 0 where
    pub within : bytes ≤ b.max_body_bytes
    pub asked : owned ≡ want bytes
    pub same_size : c.permits ≡ b.permits
    pub same_cap : c.max_body_bytes ≡ b.max_body_bytes
    pub taken : available_permits sem c + owned ≡ available_permits sem b

module _ {S : Type 0} (sem : Semaphore S) (laws : IsSemaphore sem) where
  abbrev Enough : BufferBudget S → ℕ → Type 0
  Enough b bytes =
      (s : S) × (reserve sem b bytes ≡ some (record b { semaphore = s }, want bytes))
      × (sem.available s + want bytes ≡ sem.available b.semaphore)

  reserve_cases :
      (b : BufferBudget S) (bytes : ℕ)
      → Enough b bytes ⊎ ((sem.available b.semaphore < want bytes) × (reserve sem b bytes ≡ none))
  unfolding reserve
  reserve_cases b bytes = elim (dec_le (want bytes) (sem.available b.semaphore)) [
    | yes enough ↦
        let (s, e, taken) = laws.try_acquire_ok b.semaphore (want bytes) enough in
        inl (s, rw e refl, taken)
    | no short ↦
        let less : sem.available b.semaphore < want bytes = omega (arith, short) in
        inr (less, rw (laws.try_acquire_none b.semaphore (want bytes) less) refl)
  ]

  pub admit-Admitted :
      (b : BufferBudget S) (bytes : ℕ) (c : BufferBudget S) (owned : ℕ)
      → admit sem b (some bytes) ≡ ok (c, owned)
      → Admitted sem b bytes c owned
  unfolding admit available_permits
  admit-Admitted b bytes c owned e = elim (reserve_cases b bytes) [
    | inr (less, refused) ↦ absurd (ground (arith, rw refused at e))
    | inl (s, e1, taken) ↦
        let within : bytes ≤ b.max_body_bytes = ground arith in
        let same : ok_or (reserve sem b bytes) too_many_requests ≡ ok (c, owned) = ground arith in
        subst (λ (p : BufferBudget S × ℕ). Admitted sem b bytes p.0 p.1)
          (ok-injective (rw e1 at same))
          (record {
            within = within;
            asked = refl;
            same_size = refl;
            same_cap = refl;
            taken = taken;
          })
  ]

  -- The guards on a declared length: no length is refused, a length above the cap is too large, one
  -- that asks for more permits than are available is put off, and any other is admitted and takes
  -- its permits.
  pub admit_lem :
      (b : BufferBudget S)
      → (admit sem b none ≡ err length_required)
        × ((bytes : ℕ)
            → b.max_body_bytes < bytes
            → admit sem b (some bytes) ≡ err payload_too_large)
        × ((bytes : ℕ)
            → bytes ≤ b.max_body_bytes
            → available_permits sem b < want bytes
            → admit sem b (some bytes) ≡ err too_many_requests)
        × ((bytes : ℕ)
            → bytes ≤ b.max_body_bytes
            → want bytes ≤ available_permits sem b
            → (c : BufferBudget S) × (admit sem b (some bytes) ≡ ok (c, want bytes))
              × Admitted sem b bytes c (want bytes))
  unfolding admit available_permits
  admit_lem b = (
    refl,
    λ bytes over. ground arith,
    λ bytes within short. elim (reserve_cases b bytes) [
      | inl (s, e, taken) ↦ absurd (omega (arith, taken, short))
      | inr (less, refused) ↦ ground (arith, refused)
    ],
    λ bytes within enough. elim (reserve_cases b bytes) [
      | inr (less, refused) ↦ absurd (omega (arith, less, enough))
      | inl (s, e, taken) ↦ (
        record b { semaphore = s },
        ground (arith, e),
        record { within = within; asked = refl; same_size = refl; same_cap = refl; taken = taken },
      )
    ],
  )
