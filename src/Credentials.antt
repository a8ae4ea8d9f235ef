-- ===== src/Credentials.antt =====
-- src/gcp_auth.rs: the token provider, with detection of the credentials on first use.
-- The gcp_auth crate and the clock are arguments: a future is the time that it takes and its result,
-- or none if it never ends, and a call also tells how long it took. `P` is the detected provider. The cell runs one
-- initializer at a time, so calls come one after the other.
pub mod Bounds
pub mod Detection
pub mod Tests
use sturnus.Prelude.{
  ℕ, ◌+◌, Bool, true, false, String, List, [], ◌∷◌, Option, none, some, leb, if◌then◌else◌, Result,
  ok, err,
}
use sturnus.Tracker.{Duration}

-- `AUTH_TIMEOUT`: five seconds.
abbrev pub auth_timeout : Duration
auth_timeout = 5_000_000_000

abbrev pub Future : Type 0 → Type 0
Future A = Option (Duration × A)

-- `tokio::time::timeout`: the result in time, or none, and when the wait was over.
unfoldable pub timeout : {A : Type 0} → Duration → Future A → Option A × Duration
timeout limit none = (none, limit)
timeout limit (some (takes, a)) = if leb takes limit then (some a, takes) else (none, limit)

pub data AuthError (E : Type 0) : Type 0 where
  detection_timed_out token_timed_out : AuthError E
  auth_failed : E → AuthError E

-- The cell.
pub record GcpTokenProvider (P : Type 0) : Type 0 where
  pub provider : Option P

unfoldable pub new_provider : {P : Type 0} → GcpTokenProvider P
new_provider = record { provider = none }

-- What a call leaves: its result, the time it took, whether it ran the detection, and the cell.
pub record Called (P A : Type 0) : Type 0 where
  pub result : A
  pub took : Duration
  pub detected : Bool
  pub cell : GcpTokenProvider P

unfoldable pub token_result : {E : Type 0} → Option (Result E String) → Result (AuthError E) String
token_result (some (ok token)) = ok token
token_result (some (err e)) = err (auth_failed e)
token_result none = err token_timed_out

module _ {P E : Type 0} where
  -- The closure of `get_or_try_init`, which fills the cell only with a success.
  unfoldable pub detect :
      GcpTokenProvider P → Option (Result E P) × Duration → Called P (Result (AuthError E) P)
  detect cell (some (ok p), t) = record {
    result = ok p;
    took = t;
    detected = true;
    cell = record { provider = some p };
  }
  detect cell (some (err e), t) = record {
    result = err (auth_failed e);
    took = t;
    detected = true;
    cell = cell;
  }
  detect cell (none, t) = record {
    result = err detection_timed_out;
    took = t;
    detected = true;
    cell = cell;
  }

  provider_from :
      Option P → GcpTokenProvider P → Future (Result E P) → Called P (Result (AuthError E) P)
  unfolding detect timeout
  provider_from (some p) cell detection = record {
    result = ok p;
    took = 0;
    detected = false;
    cell = cell;
  }
  provider_from none cell detection = detect cell (timeout auth_timeout detection)

  unfoldable pub provider :
      GcpTokenProvider P → Future (Result E P) → Called P (Result (AuthError E) P)
  unfolding provider_from
  provider cell detection = provider_from cell.provider cell detection

  fetch_with :
      Called P (Result (AuthError E) P)
      → Result (AuthError E) P
      → (P → Future (Result E String))
      → Called P (Result (AuthError E) String)
  unfolding token_result timeout
  fetch_with c (err e) token = record {
    result = err e;
    took = c.took;
    detected = c.detected;
    cell = c.cell;
  }
  fetch_with c (ok p) token =
      let (fetched, t) = timeout auth_timeout (token p) in
      record {
        result = token_result fetched;
        took = c.took + t;
        detected = c.detected;
        cell = c.cell;
      }

  unfoldable pub get_token :
      GcpTokenProvider P
      → Future (Result E P)
      → (P → Future (Result E String))
      → Called P (Result (AuthError E) String)
  unfolding provider fetch_with
  get_token cell detection token = let c = provider cell detection in fetch_with c c.result token
