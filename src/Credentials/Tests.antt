-- ===== src/Credentials/Tests.antt =====
-- Calls for a token, with a detection that hangs, one that fails and one that succeeds.
use sturnus.Prelude.{◌≡◌, refl, String, [], ◌∷◌, ◌++◌, none, some, ok, err}
use sturnus.Credentials.{auth_timeout, timeout, new_provider, get_token}
use sturnus.Credentials.Detection.{Call, after_calls, detection_once}

abbrev token_call : Call String String
token_call = (none, λ p. some (1, ok p))

abbrev failing : Call String String
failing = (some (3, err "no metadata server"), λ p. none)

abbrev good : Call String String
good = (some (7, ok "adc"), λ p. some (2, ok "t"))

get_token_test :
    ((get_token new_provider good.0 good.1).result ≡ ok "t")
    × ((get_token new_provider good.0 good.1).took ≡ 9)
    × ((get_token new_provider token_call.0 token_call.1).took ≡ auth_timeout)
unfolding get_token new_provider timeout
get_token_test = (refl, refl, refl)

detection_once_example :
    (after_calls new_provider (token_call ∷ failing ∷ []) ≡ (new_provider, 2))
    × (after_calls new_provider ((token_call ∷ failing ∷ []) ++ good ∷ failing ∷ [])
        ≡ (record { provider = some "adc" }, 3))
unfolding timeout
detection_once_example =
    detection_once (token_call ∷ failing ∷ []) (failing ∷ []) good "adc"
      (λ p e. cc, (λ p e. cc, tt)) refl
