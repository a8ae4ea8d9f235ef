-- ===== src/Proxy/Relay.antt =====
-- `build_relay_stream` on streams that end well and on streams that break.
use sturnus.Prelude.{◌≡◌, refl, ap, false, List, [], ◌∷◌, ◌++◌, Result, ok, err}
use sturnus.Proxy.{Bytes}
use sturnus.Proxy.Response.{relay_from, build_relay_stream}

-- Chunks that arrived.
abbrev pub arrived : {E : Type 0} → List Bytes → List (Result E Bytes)
arrived [] = []
arrived (c ∷ cs) = ok c ∷ arrived cs

module _ (error_event : Bytes) where
  relay_from-arrived :
      (E : Type 0) (cs : List Bytes) → relay_from error_event false (arrived {E = E} cs) ≡ cs
  unfolding relay_from
  relay_from-arrived E [] = refl
  relay_from-arrived E (c ∷ cs) = ap (λ l. c ∷ l) (relay_from-arrived E cs)

module _ {E : Type 0} (error_event : Bytes) where
  relay_from-err :
      (cs : List Bytes) (e : E) (rest : List (Result E Bytes))
      → relay_from error_event false (arrived cs ++ err e ∷ rest) ≡ cs ++ error_event ∷ []
  unfolding relay_from
  relay_from-err [] e rest = refl
  relay_from-err (c ∷ cs) e rest = ap (λ l. c ∷ l) (relay_from-err cs e rest)

  -- A stream without an error is relayed chunk for chunk. One with an error is relayed up to the
  -- first error, in whose place one error event ends it, whatever the upstream sends after it.
  pub build_relay_stream_lem :
      (cs : List Bytes)
      → (build_relay_stream error_event (arrived {E = E} cs) ≡ cs)
        × ((e : E) (rest : List (Result E Bytes))
            → build_relay_stream error_event (arrived cs ++ err e ∷ rest) ≡ cs ++ error_event ∷ [])
  unfolding build_relay_stream
  build_relay_stream_lem cs = (relay_from-arrived error_event E cs, relay_from-err cs)
