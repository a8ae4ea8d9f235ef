-- ===== src/Admission/Permits.antt =====
-- The semaphore of tokio that `BufferBudget` uses, as an interface, and one that counts.
use sturnus.Prelude.{
  ℕ, ◌+◌, ◌-◌, ◌≤◌, ◌<◌, ◌≡◌, refl, Option, none, some, arith, if◌then◌else◌, leb,
}

pub record Semaphore (S : Type 0) : Type 0 where
  -- `MAX_PERMITS`
  pub max_permits : ℕ
  pub new : ℕ → S
  -- `try_acquire_many_owned`, the semaphore afterwards.
  pub try_acquire : S → ℕ → Option S
  pub release : S → ℕ → S
  -- `available_permits`
  pub available : S → ℕ

-- The count of permits, below the documented maximum.
pub record IsSemaphore {S : Type 0} (sem : Semaphore S) : Type 0 where
  pub some_permits : 1 ≤ sem.max_permits
  pub available-new : (n : ℕ) → n ≤ sem.max_permits → sem.available (sem.new n) ≡ n
  pub try_acquire_ok :
      (s : S) (n : ℕ)
      → n ≤ sem.available s
      → (t : S) × (sem.try_acquire s n ≡ some t) × (sem.available t + n ≡ sem.available s)
  pub try_acquire_none : (s : S) (n : ℕ) → sem.available s < n → sem.try_acquire s n ≡ none
  pub available-release :
      (s : S) (n : ℕ)
      → sem.available s + n ≤ sem.max_permits
      → sem.available (sem.release s n) ≡ sem.available s + n

unfoldable pub counting : Semaphore ℕ
counting = record {
  max_permits = 0x1fff_ffff_ffff_ffff;
  new = λ n. n;
  try_acquire = λ s n. if leb n s then some (s - n) else none;
  release = λ s n. s + n;
  available = λ s. s;
}

pub counting-IsSemaphore : IsSemaphore counting
unfolding counting
counting-IsSemaphore = record {
  some_permits = omega arith;
  available-new = λ n _. refl;
  try_acquire_ok = λ s n h. (s - n, ground arith, ground arith);
  try_acquire_none = λ s n h. ground arith;
  available-release = λ s n _. refl;
}
