-- ===== src/Server/Status.antt =====
-- The status page shows every provider and model once.
use sturnus.Prelude.{ℕ, ◌≡◌, List, [], ◌∷◌, some, get_elem?, All, ok, nat_eq}
use sturnus.F64.{F64}
use sturnus.Http.{Http}
use sturnus.Candidate.{ResolvedCandidate}
use sturnus.Tracker.{Tracker}
use sturnus.Config.{Config}
use sturnus.ModelMap.{ModelMap, Registry, from_config}
use sturnus.Server.Observability.{Entry, entry_of}

module _ {F : Type 0} where
  -- No two entries are of the same provider and model.
  abbrev pub NoRepeats : List (Entry F) → Type 0
  NoRepeats [] = Unit
  NoRepeats (e ∷ es) =
      All (λ g. ¬ ((e.provider ≡ g.provider) × (e.model ≡ g.model))) es × NoRepeats es

module _ {F V M : Type 0} ⦃d : F64 F⦄ (h : Http V M) (config : Config F) (fresh : Tracker F)
    (registry : Registry F) (m : ModelMap V M)
    (built : from_config h config fresh ≡ ok (registry, m)) (t : Tracker F) where
  abbrev pub OnPage : List (Entry F) → ResolvedCandidate V M → Type 0
  OnPage es c =
      (j : ℕ) × (e : Entry F) × (get_elem? es j ≡ some e)
      × (entry_of t c ≡ some e)
      × (e.provider ≡ c.provider_name)
      × (e.model ≡ c.model)
