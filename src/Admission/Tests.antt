-- ===== src/Admission/Tests.antt =====
-- Runs of the buffer budget over the counting semaphore, and the theorems where they apply.
use sturnus.Prelude.{here, ℕ, ◌≤◌, ◌<◌, ◌≡◌, refl, [], ◌∷◌, none, some, arith, ok, err}
use sturnus.Admission.{
  BufferBudget, length_required, payload_too_large, too_many_requests, want, new_budget, reserve,
  available_permits, release, admit,
}
use sturnus.Admission.Permits.{counting, counting-IsSemaphore}
use sturnus.Admission.Reserve.{Admitted, admit_lem}
use sturnus.Admission.InFlight.{
  Flights, admitted, released, Steps, stay, step, start, admits_when_idle,
}

-- 10 KB, with a cap of 8 KB on a body.
abbrev small : BufferBudget ℕ
small = record { semaphore = 10; permits = 10; max_body_bytes = 8192 }

new_budget_test : new_budget counting 10300 8192 ≡ small
unfolding new_budget counting
new_budget_test = refl

admit_test :
    (admit counting small (some 8193) ≡ err payload_too_large)
    × (admit counting (record small { semaphore = 2 }) (some 2049) ≡ err too_many_requests)
    × (admit counting small (some 0) ≡ ok (record small { semaphore = 9 }, 1))
unfolding admit counting reserve want
admit_test = (refl, refl, refl)

abbrev one_body : Flights ℕ
one_body = record {
  budget = record (new_budget counting 10300 8192) { semaphore = 7 };
  bodies = record { bytes = 2049; owned = 3 } ∷ [];
}

one_body_admitted : Steps counting (start counting 10300 8192) one_body
unfolding admit counting new_budget reserve want
one_body_admitted = step (admitted 2049 3 refl) stay

abbrev idle_again : Flights ℕ
idle_again = record { budget = release counting one_body.budget 3; bodies = [] }

body_released : Steps counting (start counting 10300 8192) idle_again
unfolding admit counting new_budget reserve want release
body_released = step {g = one_body} (admitted 2049 3 refl) (step (released here) stay)

admit_lem_example :
    (admit counting small none ≡ err length_required)
    × ((bytes : ℕ)
        → small.max_body_bytes < bytes
        → admit counting small (some bytes) ≡ err payload_too_large)
    × ((bytes : ℕ)
        → bytes ≤ small.max_body_bytes
        → available_permits counting small < want bytes
        → admit counting small (some bytes) ≡ err too_many_requests)
    × ((bytes : ℕ)
        → bytes ≤ small.max_body_bytes
        → want bytes ≤ available_permits counting small
        → (c : BufferBudget ℕ) × (admit counting small (some bytes) ≡ ok (c, want bytes))
          × Admitted counting small bytes c (want bytes))
admit_lem_example = admit_lem counting counting-IsSemaphore small

eight_kb_fits : 8192 ≤ idle_again.budget.max_body_bytes
unfolding release new_budget counting
eight_kb_fits = omega arith

admits_when_idle_example :
    (c : BufferBudget ℕ) × (admit counting idle_again.budget (some 8192) ≡ ok (c, want 8192))
admits_when_idle_example =
    admits_when_idle counting counting-IsSemaphore 10300 8192 idle_again 8192 (omega arith)
      (omega arith) body_released refl eight_kb_fits
