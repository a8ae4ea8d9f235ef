-- ===== src/Admission/Bounds.antt =====
-- The numbers of `BufferBudget::new` and the permits of a body.
use sturnus.Prelude.{ℕ, ◌*◌, ◌≤◌, ◌≡◌, max, arith}
use sturnus.F64.{u64_max}
use sturnus.Admission.{want, u32_max, new_budget, available_permits}
use sturnus.Admission.Permits.{Semaphore, IsSemaphore}

pub want_bounds :
    (bytes : ℕ)
    → (1 ≤ want bytes)
      × (want bytes ≤ u32_max)
      × (bytes ≤ u32_max * 1024 → bytes ≤ want bytes * 1024)
unfolding want
want_bounds bytes = (omega arith, omega arith, λ h. omega arith)

-- A body within the cap never asks for more permits than there are.
pub want-le_permits :
    (bytes permits : ℕ) → 1 ≤ permits → bytes ≤ permits * 1024 → want bytes ≤ permits
unfolding want
want-le_permits bytes permits h k = omega arith

module _ {S : Type 0} (sem : Semaphore S) (laws : IsSemaphore sem) where
  -- A new budget has at least one permit and all of them available, takes at most the bytes that
  -- were asked for, or one kilobyte, so that its size is a 64-bit word, caps a body at the
  -- whole budget, and never asks for more permits than a semaphore has.
  pub new_budget_bounds :
      (budget_bytes max_body_bytes : ℕ)
      → budget_bytes ≤ u64_max
      → let b = new_budget sem budget_bytes max_body_bytes in
        (1 ≤ b.permits)
        × (available_permits sem b ≡ b.permits)
        × (b.permits * 1024 ≤ max budget_bytes 1024)
        × (b.permits * 1024 ≤ u64_max)
        × (b.max_body_bytes ≤ max_body_bytes)
        × (b.max_body_bytes ≤ b.permits * 1024)
        × (b.permits ≤ sem.max_permits)
  unfolding new_budget available_permits
  new_budget_bounds budget_bytes max_body_bytes h = (
    omega (arith, laws.some_permits),
    laws.available-new _ (omega arith),
    omega arith,
    omega arith,
    omega arith,
    omega arith,
    omega (arith, laws.some_permits),
  )
