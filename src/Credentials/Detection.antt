-- ===== src/Credentials/Detection.antt =====
-- Detection runs until it has succeeded, and never again.
use sturnus.Prelude.{
  ℕ, suc, ◌≡◌, ◌≢◌, refl, ap, ◌∙◌, true, String, List, [], ◌∷◌, ◌++◌, Option, none, some, length,
  All, Result, ok, err, if◌then◌else◌, ok-injective, some-injective,
}
use sturnus.Credentials.{
  auth_timeout, Future, timeout, GcpTokenProvider, new_provider, Called, AuthError, detect,
  provider_from, provider, fetch_with, get_token,
}

-- What the world answers to a call: the detection, and the token of a provider.
abbrev pub Call : Type 0 → Type 0 → Type 0
Call P E = Future (Result E P) × (P → Future (Result E String))

module _ {P E : Type 0} where
  abbrev pub detected_in_time : Call P E → Option (Result E P)
  detected_in_time (detection, token) = (timeout auth_timeout detection).0

  abbrev call : GcpTokenProvider P → Call P E → Called P (Result (AuthError E) String)
  call cell (detection, token) = get_token cell detection token

  -- The cell after calls, and how many of them ran the detection.
  unfoldable pub after_calls : GcpTokenProvider P → List (Call P E) → GcpTokenProvider P × ℕ
  after_calls cell [] = (cell, 0)
  after_calls cell (c ∷ cs) =
      let now = call cell c in
      let (last, n) = after_calls now.cell cs in (last, if now.detected then suc n else n)

  abbrev pub Fails : Call P E → Type 0
  Fails c = (p : P) → detected_in_time c ≢ some (ok p)

  fetch_with-keeps :
      (c : Called P (Result (AuthError E) P)) (r : Result (AuthError E) P)
      (token : P → Future (Result E String))
      → ((fetch_with c r token).cell ≡ c.cell) × ((fetch_with c r token).detected ≡ c.detected)
  unfolding fetch_with
  fetch_with-keeps c (err e) token = (refl, refl)
  fetch_with-keeps c (ok p) token = (refl, refl)

  detect-fails :
      (r : Option (Result E P) × ℕ)
      → ((p : P) → r.0 ≢ some (ok p))
      → ((detect new_provider r).cell ≡ new_provider) × ((detect new_provider r).detected ≡ true)
  unfolding detect
  detect-fails (some (ok p), t) bad = absurd (bad p refl)
  detect-fails (some (err e), t) bad = (refl, refl)
  detect-fails (none, t) bad = (refl, refl)

  detect-succeeds :
      (r : Option (Result E P) × ℕ) (p : P)
      → r.0 ≡ some (ok p)
      → ((detect new_provider r).cell ≡ record { provider = some p })
        × ((detect new_provider r).detected ≡ true)
  unfolding detect
  detect-succeeds (some (ok q), t) p e =
      (ap (λ x. record { provider = some x }) (ok-injective (some-injective _ _ e)), refl)
  detect-succeeds (some (err e'), t) p e = cc
  detect-succeeds (none, t) p e = cc

  -- A call on a filled cell.
  filled :
      (p : P) (cs : List (Call P E))
      → after_calls (record { provider = some p }) cs ≡ (record { provider = some p }, 0)
  unfolding after_calls get_token provider provider_from fetch_with
  filled p [] = refl
  filled p (c ∷ cs) = rw (filled p cs) refl

  -- The effect of a call on an empty cell, by what its detection comes to.
  empty_undetected :
      (c : Call P E)
      → Fails c
      → ((call new_provider c).cell ≡ new_provider) × ((call new_provider c).detected ≡ true)
  unfolding get_token provider provider_from new_provider
  empty_undetected (detection, token) bad =
      let tried = provider new_provider detection in
      let (cell, ran) = fetch_with-keeps tried tried.result token in
      let (kept, detected) = detect-fails (timeout auth_timeout detection) bad in
      (cell ∙ kept, ran ∙ detected)

  empty_succeeds :
      (c : Call P E) (p : P)
      → detected_in_time c ≡ some (ok p)
      → ((call new_provider c).cell ≡ record { provider = some p })
        × ((call new_provider c).detected ≡ true)
  unfolding get_token provider provider_from new_provider
  empty_succeeds (detection, token) p good =
      let tried = provider new_provider detection in
      let (cell, ran) = fetch_with-keeps tried tried.result token in
      let (kept, detected) = detect-succeeds (timeout auth_timeout detection) p good in
      (cell ∙ kept, ran ∙ detected)

  -- Over calls from the start: as long as the detection fails or is out of time, every call runs it
  -- again; the first that succeeds fills the cell, and no later call runs it or changes the cell.
  pub detection_once :
      (before later : List (Call P E)) (c : Call P E) (p : P)
      → All Fails before
      → detected_in_time c ≡ some (ok p)
      → (after_calls new_provider before ≡ (new_provider, length before))
        × (after_calls new_provider (before ++ c ∷ later)
            ≡ (record { provider = some p }, suc (length before)))
  unfolding after_calls
  detection_once [] later c p _ good =
      let (cell, ran) = empty_succeeds c p good in (refl, rw (cell, ran, filled p later) refl)
  detection_once (b ∷ bs) later c p (bad, rest) good =
      let (cell, ran) = empty_undetected b bad in
      let (all_bad, all) = detection_once bs later c p rest good in
      (rw (cell, ran, all_bad) refl, rw (cell, ran, all) refl)
