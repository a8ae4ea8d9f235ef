-- ===== src/Config/Addresses.antt =====
-- What `listen_addrs` accepts.
use sturnus.Prelude.{
  ◌≡◌, ◌≢◌, refl, sym, ◌∙◌, ◌↔◌, String, Option, none, some, arith, Eq, string_eq, ok, >>=-eq-ok,
  Option-cases, some-injective, inl, inr,
}
use sturnus.Config.{Config}
use sturnus.Config.Checks.{listen_addrs, metrics_addr}

-- The second address, where there is one, is an address and not the first.
abbrev pub OtherAddr : {A : Type 0} → (String → Option A) → A → Option String → Type 0
OtherAddr parse_addr main none = Unit
OtherAddr {A} parse_addr main (some ml) = (addr : A) × (parse_addr ml ≡ some addr) × (addr ≢ main)

module _ {A : Type 0} ⦃eq : Eq A⦄ (parse_addr : String → Option A) where
  pub metrics_addr_iff :
      (main : A) (ml : Option String)
      → ((r : Option A) × (metrics_addr parse_addr main ml ≡ ok r)) ↔ OtherAddr parse_addr main ml
  unfolding metrics_addr
  metrics_addr_iff main none = (λ _. tt, λ _. (none, refl))
  metrics_addr_iff main (some ml) = elim (Option-cases (parse_addr ml)) [
    | inl bad ↦ (λ (r, e). absurd (ground arith), λ (a, p, n). absurd (ground arith))
    | inr (a, p) ↦ (
      λ (r, e). (a, p, ground arith),
      λ (b, q, n). let same = some-injective _ _ (sym p ∙ q) in (some a, ground (arith, same)),
    )
  ]

module _ {A F : Type 0} ⦃eq : Eq A⦄ (parse_addr : String → Option A) where
  pub listen_addrs_ok :
      (c : Config F) (r : A × Option A)
      → listen_addrs parse_addr c ≡ ok r
      → (main : A) × (parse_addr c.listen ≡ some main)
        × ((o : Option A) × (metrics_addr parse_addr main c.metrics_listen ≡ ok o))
  unfolding listen_addrs
  listen_addrs_ok c r e = elim (Option-cases (parse_addr c.listen)) [
    | inl bad ↦ absurd (ground arith)
    | inr (main, p) ↦
        let (o, q, _) =
          >>=-eq-ok (metrics_addr parse_addr main c.metrics_listen) (λ o. ok (main, o))
            (rw p at e) in
        (main, p, (o, q))
  ]

  pub listen_addrs_of :
      (c : Config F) (main : A) (o : Option A)
      → parse_addr c.listen ≡ some main
      → metrics_addr parse_addr main c.metrics_listen ≡ ok o
      → listen_addrs parse_addr c ≡ ok (main, o)
  unfolding listen_addrs
  listen_addrs_of c main o p q = rw p (rw q refl)
