-- ===== src/Admission/InFlight.antt =====
-- Requests in flight: the bodies that were admitted and not yet released, over any sequence of
-- admissions and releases.
use sturnus.Prelude.{
  ℕ, ◌+◌, ◌*◌, ◌≤◌, ◌≡◌, refl, ap, ◌∙◌, List, [], ◌∷◌, some, arith, ok, All, max, Takes, here,
  there, All-Takes,
}
use sturnus.F64.{u64_max}
use sturnus.Admission.{BufferBudget, want, u32_max, new_budget, release, available_permits, admit}
use sturnus.Admission.Permits.{Semaphore, IsSemaphore}
use sturnus.Admission.Bounds.{want_bounds, want-le_permits, new_budget_bounds}
use sturnus.Admission.Reserve.{admit-Admitted, admit_lem}

-- A body's declared length and the permits that it owns.
pub record Body : Type 0 where
  pub bytes : ℕ
  pub owned : ℕ

abbrev pub total_bytes : List Body → ℕ
total_bytes [] = 0
total_bytes (x ∷ xs) = x.bytes + total_bytes xs

abbrev pub total_owned : List Body → ℕ
total_owned [] = 0
total_owned (x ∷ xs) = x.owned + total_owned xs

pub record Flights (S : Type 0) : Type 0 where
  pub budget : BufferBudget S
  pub bodies : List Body

total_owned-Takes :
    {xs ys : List Body} {x : Body} → Takes xs x ys → total_owned xs ≡ x.owned + total_owned ys
total_owned-Takes here = refl
total_owned-Takes (there r) = ground (arith, total_owned-Takes r)

module _ {S : Type 0} (sem : Semaphore S) where
  pub data Step : Flights S → Flights S → Type 0 where
    admitted :
        {f : Flights S} {b : BufferBudget S} (bytes : ℕ) (owned : ℕ)
        → admit sem f.budget (some bytes) ≡ ok (b, owned)
        → Step f
            (record { budget = b; bodies = record { bytes = bytes; owned = owned } ∷ f.bodies })
    released :
        {f : Flights S} {x : Body} {others : List Body}
        → Takes f.bodies x others
        → Step f (record { budget = release sem f.budget x.owned; bodies = others })

  pub data Steps : Flights S → Flights S → Type 0 where
    stay : {f : Flights S} → Steps f f
    step : {f g k : Flights S} → Step f g → Steps g k → Steps f k

  -- Every permit is available or owned by a body that it covers.
  pub record IsBalanced (permits : ℕ) (f : Flights S) : Type 0 where
    pub size : f.budget.permits ≡ permits
    pub fits : (f.budget.max_body_bytes ≤ permits * 1024) × (1 ≤ permits)
    pub in_semaphore : permits ≤ sem.max_permits
    pub cap : f.budget.max_body_bytes ≤ u32_max * 1024
    pub balance : available_permits sem f.budget + total_owned f.bodies ≡ permits
    pub covered : All (λ x. x.bytes ≤ x.owned * 1024) f.bodies

pub Steps-append :
    {S : Type 0} (sem : Semaphore S) (f g k : Flights S)
    → Steps sem f g
    → Steps sem g k
    → Steps sem f k
Steps-append sem f _ k stay rest = rest
Steps-append sem f _ k (step {g = g} s more) rest = step s (Steps-append sem g _ k more rest)

-- The state before the first request.
abbrev pub start : {S : Type 0} → Semaphore S → ℕ → ℕ → Flights S
start sem budget_bytes max_body_bytes = record {
  budget = new_budget sem budget_bytes max_body_bytes;
  bodies = [];
}

covered_total :
    (xs : List Body)
    → All (λ x. x.bytes ≤ x.owned * 1024) xs
    → total_bytes xs ≤ total_owned xs * 1024
covered_total [] _ = omega arith
covered_total (x ∷ xs) (p, ps) = ground (arith, covered_total xs ps)

module _ {S : Type 0} (sem : Semaphore S) (laws : IsSemaphore sem) where
  Step-IsBalanced :
      (permits : ℕ) (f g : Flights S)
      → Step sem f g
      → IsBalanced sem permits f
      → IsBalanced sem permits g
  unfolding available_permits release
  Step-IsBalanced permits f _ (admitted {b = b} bytes owned e) v =
      let a = admit-Admitted sem laws f.budget bytes b owned e in
      record {
        size = a.same_size ∙ v.size;
        fits = omega (arith, a.same_cap, v.fits);
        in_semaphore = v.in_semaphore;
        cap = omega (arith, a.same_cap, v.cap);
        balance = omega (arith, a.taken, v.balance);
        covered = (omega (arith, a.asked, a.within, v.cap, (want_bounds bytes).2), v.covered);
      }
  Step-IsBalanced permits f _ (released {x = x} {others = others} r) v = record {
    size = v.size;
    fits = v.fits;
    in_semaphore = v.in_semaphore;
    cap = v.cap;
    balance =
        let freed = total_owned-Takes r in
        omega (
          arith,
          freed,
          v.balance,
          v.in_semaphore,
          laws.available-release f.budget.semaphore x.owned,
        );
    covered = (All-Takes _ r v.covered).1;
  }

  Steps-IsBalanced :
      (permits : ℕ) (f g : Flights S)
      → Steps sem f g
      → IsBalanced sem permits f
      → IsBalanced sem permits g
  Steps-IsBalanced permits f _ stay v = v
  Steps-IsBalanced permits f _ (step {g = g} s rest) v =
      Steps-IsBalanced permits _ _ rest (Step-IsBalanced permits f g s v)

  module _ (budget_bytes max_body_bytes : ℕ) where
    abbrev begin : Flights S
    begin = start sem budget_bytes max_body_bytes

    start-IsBalanced :
        budget_bytes ≤ u64_max
        → max_body_bytes ≤ u32_max * 1024
        → IsBalanced sem begin.budget.permits begin
    start-IsBalanced h k =
        let b = new_budget_bounds sem laws budget_bytes max_body_bytes h in
        record {
          size = refl;
          fits = (b.5, b.0);
          in_semaphore = b.6;
          cap = omega (arith, b.4, k);
          balance = omega (arith, b.1);
          covered = tt;
        }

    -- With a 64-bit budget and a cap on a body of at most `(2^32 - 1) * 1024` bytes, above which
    -- `reserve` asks for fewer permits than it should: however requests are admitted and released,
    -- the bodies in flight never declare more bytes than the budget, or one kilobyte if that is
    -- more, and each permit is available or owned.
    pub in_flight_bounded :
        (g : Flights S)
        → budget_bytes ≤ u64_max
        → max_body_bytes ≤ u32_max * 1024
        → Steps sem begin g
        → (total_bytes g.bodies ≤ max budget_bytes 1024)
          × (available_permits sem g.budget + total_owned g.bodies ≡ begin.budget.permits)
    in_flight_bounded g h k reached =
        let v = Steps-IsBalanced begin.budget.permits begin g reached (start-IsBalanced h k) in
        let b = new_budget_bounds sem laws budget_bytes max_body_bytes h in
        let bound = covered_total g.bodies v.covered in
        (omega (arith, bound, v.balance, b.2), v.balance)

    -- Under the same bounds on budget and cap, with no body in flight, whatever happened before,
    -- every body within the cap is admitted.
    pub admits_when_idle :
        (g : Flights S) (bytes : ℕ)
        → budget_bytes ≤ u64_max
        → max_body_bytes ≤ u32_max * 1024
        → Steps sem begin g
        → g.bodies ≡ []
        → bytes ≤ g.budget.max_body_bytes
        → (c : BufferBudget S) × (admit sem g.budget (some bytes) ≡ ok (c, want bytes))
    admits_when_idle g bytes h k reached idle within =
        let v = Steps-IsBalanced begin.budget.permits begin g reached (start-IsBalanced h k) in
        let free : available_permits sem g.budget ≡ begin.budget.permits =
          ground (arith, v.balance, ap total_owned idle) in
        let fits =
          want-le_permits bytes begin.budget.permits v.fits.1 (omega (arith, v.fits, within)) in
        let (c, e, _) = (admit_lem sem laws g.budget).3 bytes within (omega (arith, free, fits)) in
        (c, e)
