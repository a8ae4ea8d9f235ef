-- ===== src/Body/Laws.antt =====
-- Reading, replacing and collapsing the fields of a body.
use mathlib.Core.List.{append-nil, append_assoc}
use sturnus.Prelude.{
  ◌≡◌, refl, sym, ap, ◌∙◌, ◌≢◌, String, List, [], ◌∷◌, ◌++◌, Option, none, some, arith,
  if◌then◌else◌, ◌==◌, string_eq, Result, ok, err,
}
use sturnus.Prelude.Dict.{
  Dict, lookup, insert, keys, lookup-insert, NodupKeys, insert-NodupKeys, contains_key,
}
use sturnus.Body.{RawBody, get, set, visit_from, visit_map, serialize}

module _ {R : Type 0} where
  -- The value of the last entry with a key.
  abbrev pub last_value : String → List (String × R) → Option R → Option R
  last_value key [] found = found
  last_value key ((k, v) ∷ rest) found = last_value key rest (if k == key then some v else found)

  -- Entries that all parsed.
  abbrev pub oks : {E : Type 0} → List (String × R) → List (Result E (String × R))
  oks [] = []
  oks (e ∷ rest) = ok e ∷ oks rest

  visit_from-oks :
      {E : Type 0} (fields : Dict String R) (entries : List (String × R))
      → NodupKeys fields
      → (body : RawBody R) × (visit_from {E = E} fields (oks entries) ≡ ok body)
        × NodupKeys body.fields
        × ((key : String) → lookup key body.fields ≡ last_value key entries (lookup key fields))
  unfolding visit_from
  visit_from-oks fields [] u = (record { fields = fields }, refl, u, λ key. refl)
  visit_from-oks fields ((k, v) ∷ rest) u =
      let (body, eq, nodup, last) =
        visit_from-oks (insert k v fields) rest (insert-NodupKeys k v fields u) in
      (body, eq, nodup, λ key. last key ∙ ap (last_value key rest) (lookup-insert k key v fields))

  -- A valid object gives a body without duplicate keys, in which each key has its last value.
  pub visit_map_last_wins :
      {E : Type 0} (entries : List (String × R))
      → (body : RawBody R) × (visit_map {E = E} (oks entries) ≡ ok body)
        × NodupKeys body.fields
        × ((key : String) → get body key ≡ last_value key entries none)
  unfolding visit_map get lookup
  visit_map_last_wins entries = visit_from-oks [] entries tt

  -- An error of the parser ends the visit with that error, after any entries and whatever comes next.
  pub visit_map_error :
      {E : Type 0} (entries : List (String × R)) (e : E) (rest : List (Result E (String × R)))
      → visit_map (oks entries ++ err e ∷ rest) ≡ err e
  unfolding visit_map
  visit_map_error entries e rest = go [] entries
    where
      go :
          (fields : Dict String R) (entries : List (String × R))
          → visit_from fields (oks entries ++ err e ∷ rest) ≡ err e
      go fields [] = refl
      go fields ((k, v) ∷ entries) = go (insert k v fields) entries

  lookup-middle :
      (fields rest : Dict String R) (k : String) (v : R) → lookup k (fields ++ (k, v) ∷ rest) ≢ none
  unfolding lookup
  lookup-middle [] rest k v = ground arith
  lookup-middle ((j, w) ∷ fields) rest k v = ground (arith, lookup-middle fields rest k v)

  middle_fresh :
      (fields rest : Dict String R) (k : String) (v : R)
      → NodupKeys (fields ++ (k, v) ∷ rest)
      → lookup k fields ≡ none
  unfolding lookup
  middle_fresh [] rest k v u = refl
  middle_fresh ((j, w) ∷ fields) rest k v u =
      ground (arith, middle_fresh fields rest k v u.1, lookup-middle fields rest k v)

  insert-fresh :
      (fields : Dict String R) (k : String) (v : R)
      → lookup k fields ≡ none
      → insert k v fields ≡ fields ++ (k, v) ∷ []
  unfolding insert lookup
  insert-fresh [] k v h = refl
  insert-fresh ((j, w) ∷ fields) k v h = ground (arith, insert-fresh fields k v)

  visit_from-distinct :
      {E : Type 0} (fields entries : Dict String R)
      → NodupKeys (fields ++ entries)
      → visit_from {E = E} fields (oks entries) ≡ ok (record { fields = fields ++ entries })
  unfolding visit_from
  visit_from-distinct fields [] u = ap (λ l. ok (record { fields = l })) (sym (append-nil fields))
  visit_from-distinct fields ((k, v) ∷ rest) u =
      rw (visit_from, insert-fresh fields k v (middle_fresh fields rest k v u))
        (visit_from-distinct (fields ++ (k, v) ∷ []) rest
            (rw (append_assoc fields ((k, v) ∷ []) rest) u)
          ∙ ap (λ l. ok (record { fields = l })) (append_assoc fields ((k, v) ∷ []) rest))

  -- An object whose keys are distinct is forwarded as it came: every entry, in its place.
  pub serialize-visit_map :
      {E : Type 0} (entries : List (String × R))
      → NodupKeys entries
      → (body : RawBody R) × (visit_map {E = E} (oks entries) ≡ ok body)
        × (serialize body ≡ entries)
  unfolding visit_map serialize
  serialize-visit_map entries u =
      (record { fields = entries }, visit_from-distinct [] entries u, refl)

  keys-insert :
      (k : String) (v : R) (m : Dict String R)
      → keys (insert k v m) ≡ (if contains_key k m then keys m else keys m ++ k ∷ [])
  unfolding insert contains_key
  keys-insert k v [] = refl
  keys-insert k v ((j, w) ∷ m) = ground (arith, keys-insert k v m)

  -- `set` is read back, touches no other field, and keeps the order of the fields, with a new key
  -- at the end.
  pub set_lem :
      (body : RawBody R) (key : String) (value : R)
      → ((other : String)
          → get (set body key value) other ≡ (if key == other then some value else get body other))
        × (keys (serialize (set body key value)) ≡ (
            if contains_key key body.fields
            then keys (serialize body)
            else keys (serialize body) ++ key ∷ []))
  unfolding get set serialize
  set_lem body key value =
      (λ other. lookup-insert key other value body.fields, keys-insert key value body.fields)
