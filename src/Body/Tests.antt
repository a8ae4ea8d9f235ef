-- ===== src/Body/Tests.antt =====
-- Bodies with numbers for raw values, and the theorems at inputs where they apply.
use sturnus.Prelude.{ℕ, ◌≡◌, refl, String, List, [], ◌∷◌, none, some, string_eq, ok, err}
use sturnus.Prelude.Dict.{lookup, NodupKeys}
use sturnus.Body.{RawBody, get, get_as, set, visit_map, serialize}
use sturnus.Body.Laws.{last_value, oks, visit_map_last_wins, serialize-visit_map}

abbrev repeated : List (String × ℕ)
repeated = ("a", 1) ∷ ("b", 2) ∷ ("a", 3) ∷ []

visit_tests :
    (visit_map {E = String} (oks repeated) ≡ ok (record { fields = ("a", 3) ∷ ("b", 2) ∷ [] }))
    × (visit_map {R = ℕ} {E = String} (ok ("a", 1) ∷ err "eof" ∷ []) ≡ err "eof")
unfolding visit_map string_eq
visit_tests = (refl, refl)

abbrev sample : RawBody ℕ
sample = record { fields = ("a", 1) ∷ ("model", 2) ∷ [] }

set_tests :
    (set sample "a" 5 ≡ record { fields = ("a", 5) ∷ ("model", 2) ∷ [] })
    × (set sample "c" 5 ≡ record { fields = ("a", 1) ∷ ("model", 2) ∷ ("c", 5) ∷ [] })
    × (get_as some sample "model" ≡ some 2)
    × (get_as {T = ℕ} (λ r. none) sample "model" ≡ none)
unfolding set get_as string_eq
set_tests = (refl, refl, refl, refl)

visit_map_last_wins_example :
    (body : RawBody ℕ) × (visit_map {E = String} (oks repeated) ≡ ok body)
    × NodupKeys body.fields
    × ((key : String) → get body key ≡ last_value key repeated none)
visit_map_last_wins_example = visit_map_last_wins repeated

serialize-visit_map_example :
    (body : RawBody ℕ) × (visit_map {E = String} (oks sample.fields) ≡ ok body)
    × (serialize body ≡ sample.fields)
unfolding lookup string_eq
serialize-visit_map_example = serialize-visit_map sample.fields (refl, (refl, tt))
