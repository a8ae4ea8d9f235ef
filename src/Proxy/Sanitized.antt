-- ===== src/Proxy/Sanitized.antt =====
-- The response headers that are relayed.
use sturnus.Prelude.{
  ◌≡◌, refl, sym, ap, ◌∙◌, true, false, Bool-cases, inl, inr, String, List, [], ◌∷◌, ◌++◌, Option,
  some, arith, if◌then◌else◌, string_eq, ◌==◌, All, append_snoc, append_nil,
}
use sturnus.Http.{Http, values_of, values, IsHeaderMap}
use sturnus.Proxy.Response.{is_stripped, relay_header, sanitize_from, sanitize_response_headers}

module _ {V M : Type 0} (h : Http V M) (laws : IsHeaderMap h) (from_bytes : V → Option V) where
  -- What is a header name or value stays one when it is made again from its bytes.
  abbrev pub Reparses : String × V → Type 0
  Reparses (k, v) = (h.header_name k ≡ some k) × (from_bytes v ≡ some v)

  kept : String → M → List (String × V) → List V
  kept name headers es =
      if is_stripped name then values h headers name else values h headers name ++ values_of name es

  values-relay_header :
      (name k : String) (headers : M) (v : V)
      → Reparses (k, v)
      → values h (relay_header h from_bytes headers k v) name ≡ (
          if is_stripped k
          then values h headers name
          else (if k == name then values h headers name ++ v ∷ [] else values h headers name))
  unfolding relay_header
  values-relay_header name k headers v (kp, vp) = elim (Bool-cases (is_stripped k)) [
    | inl stripped ↦ rw stripped refl
    | inr plain ↦ rw (plain, kp, vp) (laws.values-append name k v headers)
  ]

  sanitize_from-values :
      (name : String) (headers : M) (es : List (String × V))
      → All Reparses es
      → values h (sanitize_from h from_bytes headers es) name ≡ kept name headers es
  unfolding sanitize_from kept
  sanitize_from-values name headers [] p = ground (arith, append_nil (values h headers name))
  sanitize_from-values name headers ((k, v) ∷ es) (p, ps) =
      let next = relay_header h from_bytes headers k v in
      let now = values-relay_header name k headers v p in
      let later = sanitize_from-values name next es ps in
      let moved = append_snoc (values h headers name) v (values_of name es) in
      elim (string_eq.dec k name) [
        | no other ↦
            let miss : (k == name) ≡ false = ground (arith, other) in
            let bare : values h next name ≡ values h headers name =
              now ∙ elim (Bool-cases (is_stripped k)) [
                | inl stripped ↦ rw stripped refl
                | inr plain ↦ rw (plain, miss) refl
              ] in
            later ∙ rw (bare, miss) refl
        | yes same ↦ elim (Bool-cases (is_stripped k)) [
          | inl stripped ↦
              let bare : values h next name ≡ values h headers name = now ∙ rw stripped refl in
              let hidden : is_stripped name ≡ true = ap is_stripped (sym same) ∙ stripped in
              later ∙ rw (hidden, bare) refl
          | inr plain ↦
              let hit : (k == name) ≡ true = ground (arith, same) in
              let longer : values h next name ≡ values h headers name ++ v ∷ [] =
                now ∙ rw (plain, hit) refl in
              let shown : is_stripped name ≡ false = ap is_stripped (sym same) ∙ plain in
              later ∙ rw (shown, longer, hit) moved
        ]
      ]

  -- Every response header is relayed with all its values in order, but for the stripped ones, of
  -- which none is.
  pub sanitize_response_headers_lem :
      (name : String) (upstream : M)
      → All Reparses (h.entries upstream)
      → values h (sanitize_response_headers h from_bytes upstream) name
        ≡ (if is_stripped name then [] else values h upstream name)
  unfolding sanitize_response_headers kept
  sanitize_response_headers_lem name upstream p =
      sanitize_from-values name h.no_headers (h.entries upstream) p
      ∙ rw (laws.values-no_headers name) refl
