-- ===== src/Proxy/Capped.antt =====
-- `read_capped` accepts exactly the responses within the cap.
use sturnus.Prelude.{
  ℕ, ◌+◌, ◌≤◌, ◌≡◌, ◌↔◌, refl, sym, ap, ◌∙◌, subst, List, [], ◌∷◌, ◌++◌, Option, arith, length,
  length-append, false, Result, ok, err, ok-injective, dec_le,
}
use sturnus.Proxy.{Bytes}
use sturnus.Proxy.Response.{read_from, declared_over, read_capped}
use sturnus.Proxy.Relay.{arrived}

abbrev pub joined : Bytes → List Bytes → Bytes
joined buf [] = buf
joined buf (c ∷ cs) = joined (buf ++ c) cs

joined-le : (buf : Bytes) (cs : List Bytes) → length buf ≤ length (joined buf cs)
joined-le buf [] = omega arith
joined-le buf (c ∷ cs) = omega (arith, joined-le (buf ++ c) cs, length-append buf c)

module _ {E : Type 0} (cap_bytes : ℕ) where
  -- All chunks arrived, and together they are the body.
  pub record IsWhole (buf : Bytes) (stream : List (Result E Bytes)) (body : Bytes) : Type 0 where
    pub chunks : List Bytes
    pub all_arrived : stream ≡ arrived chunks
    pub whole : joined buf chunks ≡ body
    pub within : length body ≤ cap_bytes

  read_from-IsWhole :
      (buf : Bytes) (stream : List (Result E Bytes)) (body : Bytes)
      → length buf ≤ cap_bytes
      → read_from cap_bytes buf stream ≡ ok body
      → IsWhole buf stream body
  unfolding read_from
  read_from-IsWhole buf [] body h e = record {
    chunks = [];
    all_arrived = refl;
    whole = ok-injective e;
    within = ground (arith, ok-injective e);
  }
  read_from-IsWhole buf (err x ∷ rest) body h e = absurd (ground arith)
  read_from-IsWhole buf (ok c ∷ rest) body h e = elim (dec_le (length buf + length c) cap_bytes) [
    | no over ↦ absurd (ground arith)
    | yes fits ↦
        let v =
          read_from-IsWhole (buf ++ c) rest body (omega (arith, fits, length-append buf c))
            (ground arith) in
        record {
          chunks = c ∷ v.chunks;
          all_arrived = ap (λ l. ok c ∷ l) v.all_arrived;
          whole = v.whole;
          within = v.within;
        }
  ]

  read_from-arrived :
      (buf : Bytes) (cs : List Bytes)
      → length (joined buf cs) ≤ cap_bytes
      → read_from {E = E} cap_bytes buf (arrived cs) ≡ ok (joined buf cs)
  unfolding read_from
  read_from-arrived buf [] h = refl
  read_from-arrived buf (c ∷ cs) h =
      ground
        (arith, read_from-arrived (buf ++ c) cs h, joined-le (buf ++ c) cs, length-append buf c)

  -- A response is read exactly if no declared length is above the cap, no chunk is an error and all
  -- chunks together are within the cap; it is then their concatenation.
  pub read_capped_iff :
      (content_length : Option ℕ) (stream : List (Result E Bytes)) (body : Bytes)
      → (read_capped cap_bytes content_length stream ≡ ok body)
        ↔ ((declared_over cap_bytes content_length ≡ false) × IsWhole [] stream body)
  unfolding read_capped
  read_capped_iff content_length stream body = (
    λ e. (ground arith, read_from-IsWhole [] stream body (omega arith) (ground arith)),
    λ (declared, v).
        rw (declared, v.all_arrived)
          (read_from-arrived [] v.chunks (subst (λ b. length b ≤ cap_bytes) (sym v.whole) v.within)
            ∙ ap (λ b. ok b) v.whole),
  )
