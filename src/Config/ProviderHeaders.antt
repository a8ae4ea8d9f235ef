-- ===== src/Config/ProviderHeaders.antt =====
-- `resolved_headers`: configured headers arrive as written, once each, and none that sturnus sets.
use sturnus.Prelude.{
  ◌≡◌, sym, ap, ◌∙◌, ◌≢◌, true, false, false≢true, String, [], ◌∷◌, some, is_some, arith, string_eq,
  ok, ok-injective, ◌⊎◌, Option-cases, inl, inr, All,
}
use sturnus.Prelude.Dict.{Dict}
use sturnus.Http.{Http, values, get_header, first, IsHeaderMap}
use sturnus.Headers.{is_reserved_request_header}
use sturnus.Config.{ProviderConfig}
use sturnus.Config.Checks.{headers_from, resolved_headers}

module _ {V M : Type 0} (h : Http V M) where
  -- A header that was accepted, on a map that did not have it.
  record Accepted (map : M) (name value : String) (rest : Dict String String) (m : M) : Type 0 where
    name' : String
    value' : V
    parsed_name : h.header_name name ≡ some name'
    parsed_value : h.header_value value ≡ some value'
    unreserved : is_reserved_request_header name' ≡ false
    unset : is_some (h.insert name' value' map).1 ≡ false
    later : headers_from h (h.insert name' value' map).0 rest ≡ ok m

  headers_from-Accepted :
      (map : M) (name value : String) (rest : Dict String String) (m : M)
      → headers_from h map ((name, value) ∷ rest) ≡ ok m
      → Accepted map name value rest m
  unfolding headers_from
  headers_from-Accepted map name value rest m e = elim (Option-cases (h.header_name name)) [
    | inl bad ↦ absurd (ground arith)
    | inr (n, pn) ↦ elim (Option-cases (h.header_value value)) [
      | inl bad ↦ absurd (ground arith)
      | inr (v, pv) ↦ record {
        name' = n;
        value' = v;
        parsed_name = pn;
        parsed_value = pv;
        unreserved = ground arith;
        unset = ground arith;
        later = ground arith;
      }
    ]
  ]

  abbrev pub HasHeader : M → String × String → Type 0
  HasHeader m (name, value) =
      (name' : String) × (value' : V) × (h.header_name name ≡ some name')
      × (h.header_value value ≡ some value')
      × (values h m name' ≡ value' ∷ [])

  module _ (laws : IsHeaderMap h) where
    inserted : (map : M) (name : String) (v : V) → values h (h.insert name v map).0 name ≡ v ∷ []
    inserted map name v = ground (arith, laws.values-insert name name v map)

    values-insert_other :
        (map : M) (name key : String) (v : V)
        → name ≢ key
        → values h (h.insert name v map).0 key ≡ values h map key
    values-insert_other map name key v ne = ground (arith, laws.values-insert key name v map)

    fresh_name :
        (map : M) (name : String) (v : V) (key : String)
        → is_some (h.insert name v map).1 ≡ false
        → is_reserved_request_header name ≡ false
        → (is_some (get_header h map key) ≡ true) ⊎ (is_reserved_request_header key ≡ true)
        → name ≢ key
    fresh_name map name v key unset free (inl s) e = false≢true (
        sym unset
        ∙ ap is_some (laws.insert-old name v map)
        ∙ ap (λ x. is_some (get_header h map x)) e
        ∙ s)
    fresh_name map name v key unset free (inr r) e =
        false≢true (sym free ∙ ap is_reserved_request_header e ∙ r)

    -- A name that a map has keeps its values, and a reserved one too.
    headers_from_keeps :
        (map : M) (hs : Dict String String) (m : M) (key : String)
        → headers_from h map hs ≡ ok m
        → (is_some (get_header h map key) ≡ true) ⊎ (is_reserved_request_header key ≡ true)
        → values h m key ≡ values h map key
    unfolding headers_from
    headers_from_keeps map [] m key e k = ap (λ x. values h x key) (sym (ok-injective e))
    headers_from_keeps map ((name, value) ∷ rest) m key e k =
        let a = headers_from-Accepted map name value rest m e in
        let new : M = (h.insert a.name' a.value' map).0 in
        let same : values h new key ≡ values h map key =
          values-insert_other map a.name' key a.value'
            (fresh_name map a.name' a.value' key a.unset a.unreserved k) in
        headers_from_keeps new rest m key a.later
          (elim k [ inl s ↦ inl (ap (λ l. is_some (first l)) same ∙ s) | inr r ↦ inr r ])
        ∙ same

    headers_from_sets :
        (map : M) (hs : Dict String String) (m : M)
        → headers_from h map hs ≡ ok m
        → All (HasHeader m) hs
    headers_from_sets map [] m e = tt
    headers_from_sets map ((name, value) ∷ rest) m e =
        let a = headers_from-Accepted map name value rest m e in
        (
          (
            a.name',
            a.value',
            a.parsed_name,
            a.parsed_value,
            headers_from_keeps (h.insert a.name' a.value' map).0 rest m a.name' a.later
                  (inl (ap (λ l. is_some (first l)) (inserted map a.name' a.value')))
                ∙ inserted map a.name' a.value',
          ),
          headers_from_sets (h.insert a.name' a.value' map).0 rest m a.later,
        )

    -- Where the headers of a provider are accepted, each is in the map once, under its parsed name
    -- and with its parsed value, and no name that sturnus sets or strips is in the map.
    pub resolved_headers_lem :
        (p : ProviderConfig) (m : M)
        → resolved_headers h p ≡ ok m
        → All (HasHeader m) p.headers
          × ((key : String) → is_reserved_request_header key ≡ true → values h m key ≡ [])
    unfolding resolved_headers
    resolved_headers_lem p m e = (
      headers_from_sets h.no_headers p.headers m e,
      λ key r.
          headers_from_keeps h.no_headers p.headers m key e (inr r) ∙ laws.values-no_headers key,
    )
