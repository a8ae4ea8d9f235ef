-- ===== src/Admission.antt =====
-- src/server.rs: `BufferBudget`, which admits request bodies by permits of 1 KB, and the guards of
-- `handle_request` that use it.
-- The semaphore of tokio is a parameter; `Permits.IsSemaphore` is what it documents. Releasing is
-- the drop of an owned permit.
pub mod Permits
pub mod Bounds
pub mod Reserve
pub mod InFlight
pub mod Tests
use sturnus.Prelude.{
  ℕ, ◌+◌, ◌*◌, ◌/◌, ◌^◌, Option, none, some, min, max, ltb, Result, ok, err, ok_or, if◌then◌else◌,
}
use sturnus.Prelude.Partial.{◌>>=◌}
use sturnus.Admission.Permits.{Semaphore}

pub record BufferBudget (S : Type 0) : Type 0 where
  pub semaphore : S
  pub permits : ℕ
  pub max_body_bytes : ℕ

-- `u32::MAX`
abbrev pub u32_max : ℕ
u32_max = 0xffff_ffff

-- The permits for a body, at least one and as many as `u32` holds.
unfoldable pub want : ℕ → ℕ
want bytes = min (max ((bytes + 1023) / 1024) 1) u32_max

pub data Refusal : Type 0 where
  length_required payload_too_large too_many_requests : Refusal

module _ {S : Type 0} (sem : Semaphore S) where
  unfoldable pub new_budget : ℕ → ℕ → BufferBudget S
  new_budget budget_bytes max_body_bytes =
      let permits : ℕ = min (max (budget_bytes / 1024) 1) sem.max_permits in
      record {
        semaphore = sem.new permits;
        permits = permits;
        max_body_bytes = min max_body_bytes (permits * 1024);
      }

  -- `reserve`, with the permits that the result owns.
  unfoldable pub reserve : BufferBudget S → ℕ → Option (BufferBudget S × ℕ)
  reserve b bytes = do
    s ← sem.try_acquire b.semaphore (want bytes)
    some (record b { semaphore = s }, want bytes)

  unfoldable pub available_permits : BufferBudget S → ℕ
  available_permits b = sem.available b.semaphore

  -- The drop of a permit.
  unfoldable pub release : BufferBudget S → ℕ → BufferBudget S
  release b owned = record b { semaphore = sem.release b.semaphore owned }

  -- The guards of `handle_request` on the declared length: 411, 413 and 429.
  unfoldable pub admit : BufferBudget S → Option ℕ → Result Refusal (BufferBudget S × ℕ)
  admit b none = err length_required
  admit b (some bytes) =
      if ltb b.max_body_bytes bytes
      then err payload_too_large
      else ok_or (reserve b bytes) too_many_requests
