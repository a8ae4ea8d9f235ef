-- ===== src/Proxy/Auth.antt =====
-- The headers of a request: those that sturnus sets, and the configured ones.
use sturnus.Prelude.{
  ◌≡◌, refl, sym, ap, ◌∙◌, true, false, Bool-cases, inl, inr, String, List, [], ◌∷◌, ◌++◌, Option,
  none, some, arith, if◌then◌else◌, string_eq, ◌==◌, All, ok, ok_or, >>=-eq-ok, ok_or-eq-ok,
  ok-injective, false≢true, append_snoc, append_nil,
}
use sturnus.Http.{Http, values_of, values, IsHeaderMap}
use sturnus.Headers.{
  content_type, authorization, api_key_header, x_api_key, anthropic_version,
  is_reserved_request_header,
}
use sturnus.Candidate.{ProviderKind, api_key, gcp_adc, azure_openai, anthropic, ResolvedCandidate}
use sturnus.Proxy.Request.{with_header, with_key, with_auth, with_extra, bearer, request_headers}

-- The headers, as texts, that the kind of a provider asks for.
abbrev keyed : String → Option String → List (String × String)
keyed name none = []
keyed name (some text) = (name, text) ∷ []

abbrev flat_token : Option (Option String) → Option String
flat_token none = none
flat_token (some t) = t

abbrev pub auth_texts :
    ProviderKind → Option String → Option (Option String) → List (String × String)
auth_texts api_key key tokens = keyed authorization (bearer key)
auth_texts gcp_adc key tokens = keyed authorization (bearer (flat_token tokens))
auth_texts (azure_openai api_version) key tokens = keyed api_key_header key
auth_texts (anthropic version) key tokens = keyed x_api_key key ++ (anthropic_version, version) ∷ []

keyed_reserved :
    (name : String) (key : Option String)
    → is_reserved_request_header name ≡ true
    → All (λ (n, t). is_reserved_request_header n ≡ true) (keyed name key)
keyed_reserved name none r = tt
keyed_reserved name (some k) r = (r, tt)

auth_reserved :
    (kind : ProviderKind) (key : Option String) (tokens : Option (Option String))
    → All (λ (n, t). is_reserved_request_header n ≡ true) (auth_texts kind key tokens)
unfolding is_reserved_request_header string_eq
auth_reserved api_key key tokens = keyed_reserved _ (bearer key) refl
auth_reserved gcp_adc key tokens = keyed_reserved _ (bearer (flat_token tokens)) refl
auth_reserved (azure_openai _) key tokens = keyed_reserved _ key refl
auth_reserved (anthropic _) none tokens = (refl, tt)
auth_reserved (anthropic _) (some _) tokens = (refl, (refl, tt))

content_type_reserved : is_reserved_request_header content_type ≡ true
unfolding is_reserved_request_header string_eq
content_type_reserved = refl

module _ {V M : Type 0} (h : Http V M) where
  -- Texts and their header values.
  pub data Parses : List (String × String) → List (String × V) → Type 0 where
    none_left : Parses [] []
    parsed :
        {name text : String} {v : V} {ts : List (String × String)} {vs : List (String × V)}
        → h.header_value text ≡ some v
        → Parses ts vs
        → Parses ((name, text) ∷ ts) ((name, v) ∷ vs)

  -- What a step adds to the headers.
  Adds : M → List (String × String) → M → Type 0
  Adds m texts m' = (vs : List (String × V)) × Parses texts vs × (m' ≡ with_extra h vs m)

  with_extra-append :
      (xs ys : List (String × V)) (m : M)
      → with_extra h ys (with_extra h xs m) ≡ with_extra h (xs ++ ys) m
  unfolding with_extra
  with_extra-append [] ys m = refl
  with_extra-append ((n, v) ∷ xs) ys m = with_extra-append xs ys (h.append n v m)

  Parses-append :
      {ts us : List (String × String)} {vs ws : List (String × V)}
      → Parses ts vs
      → Parses us ws
      → Parses (ts ++ us) (vs ++ ws)
  Parses-append none_left q = q
  Parses-append (parsed e p) q = parsed e (Parses-append p q)

  Adds-append :
      (ts us : List (String × String)) (m m1 m2 : M)
      → Adds m ts m1
      → Adds m1 us m2
      → Adds m (ts ++ us) m2
  unfolding Adds
  Adds-append ts us m m1 m2 (vs, p, e) (ws, q, f) =
      (vs ++ ws, Parses-append p q, f ∙ ap (λ x. with_extra h ws x) e ∙ with_extra-append vs ws m)

  module _ {E : Type 0} where
    with_header-Adds :
        (name text : String) (m m' : M)
        → with_header {E = E} h name text m ≡ ok m'
        → Adds m ((name, text) ∷ []) m'
    unfolding with_header Adds with_extra
    with_header-Adds name text m m' e =
        let (v, p, f) = >>=-eq-ok (ok_or (h.header_value text) _) _ e in
        (
          (name, v) ∷ [],
          parsed (ok_or-eq-ok (h.header_value text) _ p) none_left,
          sym (ok-injective f),
        )

    with_key-Adds :
        (name : String) (key : Option String) (m m' : M)
        → with_key {E = E} h name key m ≡ ok m'
        → Adds m (keyed name key) m'
    unfolding with_key Adds with_extra
    with_key-Adds name none m m' e = ([], none_left, sym (ok-injective e))
    with_key-Adds name (some key) m m' e = with_header-Adds name key m m' e

    with_auth-Adds :
        (kind : ProviderKind) (key : Option String) (tokens : Option (Option String)) (m m' : M)
        → with_auth {E = E} h kind key tokens m ≡ ok m'
        → Adds m (auth_texts kind key tokens) m'
    unfolding with_auth
    with_auth-Adds api_key key tokens m m' e = with_key-Adds authorization (bearer key) m m' e
    with_auth-Adds (azure_openai _) key tokens m m' e = with_key-Adds api_key_header key m m' e
    with_auth-Adds gcp_adc key none m m' e = absurd (ground arith)
    with_auth-Adds gcp_adc key (some none) m m' e = absurd (ground arith)
    with_auth-Adds gcp_adc key (some (some token)) m m' e = with_header-Adds authorization _ m m' e
    with_auth-Adds (anthropic version) key tokens m m' e =
        let (m1, e1, f) = >>=-eq-ok (with_key h x_api_key key m) _ e in
        Adds-append (keyed x_api_key key) _ m m1 m' (with_key-Adds x_api_key key m m1 e1)
          (with_header-Adds anthropic_version version m1 m' f)

  -- The headers, as texts, that sturnus sets for a candidate.
  abbrev pub set_texts : ResolvedCandidate V M → Option (Option String) → List (String × String)
  set_texts c tokens = (content_type, "application/json") ∷ auth_texts c.kind c.api_key tokens

  -- Set headers are never the configured ones.
  values_of-plain :
      (ts : List (String × String)) (vs : List (String × V)) (name : String)
      → Parses ts vs
      → All (λ (n, t). is_reserved_request_header n ≡ true) ts
      → is_reserved_request_header name ≡ false
      → values_of name vs ≡ []
  values_of-plain _ _ name none_left _ plain = refl
  values_of-plain _ _ name (parsed {name = n} e p) (r, rs) plain = elim (string_eq.dec n name) [
    | yes same ↦ absurd (false≢true (sym plain ∙ ap is_reserved_request_header (sym same) ∙ r))
    | no other ↦
        let miss : (n == name) ≡ false = ground (arith, other) in
        rw miss (values_of-plain _ _ name p rs plain)
  ]

module _ {V M : Type 0} (h : Http V M) (laws : IsHeaderMap h) where
  pub values-with_extra :
      (es : List (String × V)) (m : M) (name : String)
      → values h (with_extra h es m) name ≡ values h m name ++ values_of name es
  unfolding with_extra
  values-with_extra [] m name = sym (append_nil (values h m name))
  values-with_extra ((n, v) ∷ es) m name =
      let later = values-with_extra es (h.append n v m) name in
      let now = laws.values-append name n v m in
      elim (Bool-cases (n == name)) [
        | inl hit ↦ later ∙ rw (now, hit) (append_snoc (values h m name) v (values_of name es))
        | inr miss ↦ later ∙ rw (now, miss) refl
      ]

  -- Of a request to a candidate whose configured headers have no reserved name: under a reserved
  -- name it has exactly the values that sturnus sets for the kind of provider, in order, and under
  -- any other name exactly the configured ones.
  pub request_headers_lem :
      {E : Type 0} (c : ResolvedCandidate V M) (tokens : Option (Option String)) (m : M)
      → request_headers {E = E} h c tokens ≡ ok m
      → ((key : String) → is_reserved_request_header key ≡ true → values h c.extra_headers key ≡ [])
      → (vs : List (String × V)) × Parses h (set_texts h c tokens) vs
        × ((name : String)
            → values h m name ≡ (
                if is_reserved_request_header name
                then values_of name vs
                else values h c.extra_headers name))
  unfolding request_headers Adds
  request_headers_lem {E} c tokens m e unreserved =
      let (m1, e1, f) =
        >>=-eq-ok (with_header {E = E} h content_type "application/json" h.no_headers) _ e in
      let (m2, e2, g) = >>=-eq-ok (with_auth {E = E} h c.kind c.api_key tokens m1) _ f in
      let first = with_header-Adds h content_type _ h.no_headers m1 e1 in
      let second = with_auth-Adds h c.kind c.api_key tokens m1 m2 e2 in
      let (vs, p, made) = Adds-append h _ _ h.no_headers m1 m2 first second in
      let all = sym (ok-injective g) ∙ ap (λ x. with_extra h (h.entries c.extra_headers) x) made in
      (
        vs,
        p,
        λ name.
            let total : values h m name ≡ values_of name vs ++ values h c.extra_headers name =
              ap (λ x. values h x name) all
              ∙ values-with_extra (h.entries c.extra_headers) (with_extra h vs h.no_headers) name
              ∙ ap (λ l. l ++ values h c.extra_headers name)
                  (values-with_extra vs h.no_headers name
                    ∙ rw (laws.values-no_headers name) refl) in
            elim (Bool-cases (is_reserved_request_header name)) [
              | inl reserved ↦
                  total ∙ rw (reserved, unreserved name reserved) (append_nil (values_of name vs))
              | inr plain ↦
                  let none_set =
                    values_of-plain h _ vs name p
                      (content_type_reserved, auth_reserved c.kind c.api_key tokens) plain in
                  total ∙ rw (plain, none_set) refl
            ],
      )
