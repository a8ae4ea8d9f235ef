-- ===== src/Server/Distinct.antt =====
-- The candidates of all aliases, each slot once.
use sturnus.Prelude.{
  ℕ, suc, ◌≡◌, ◌≢◌, refl, sym, subst, true, false, Bool-cases, inl, inr, String, List, [], ◌∷◌,
  some, contains, get_elem?, All, All_mono, if◌then◌else◌, arith, nat_eq, ◌⊎◌,
}
use sturnus.Candidate.{ResolvedCandidate}

module _ {V M : Type 0} where
  -- The candidates, each slot once.
  abbrev pub distinct :
      List ℕ → List (String × ResolvedCandidate V M) → List (ResolvedCandidate V M)
  distinct seen [] = []
  distinct seen ((_, c) ∷ rest) =
      let known = contains seen c.stats_index in
      let later = distinct (if known then seen else c.stats_index ∷ seen) rest in
      if known then later else c ∷ later

  module _ {κ} (P : ResolvedCandidate V M → Type κ) where
    pub distinct-All :
        (seen : List ℕ) (cs : List (String × ResolvedCandidate V M))
        → All (λ (_, c). P c) cs
        → All P (distinct seen cs)
    distinct-All seen [] _ = tt
    distinct-All seen ((_, c) ∷ cs) (p, ps) = elim (Bool-cases (contains seen c.stats_index)) [
      | inl known ↦ rw known (distinct-All seen cs ps)
      | inr new ↦ rw new (p, distinct-All (c.stats_index ∷ seen) cs ps)
    ]

  distinct_unseen :
      (seen : List ℕ) (cs : List (String × ResolvedCandidate V M))
      → All (λ c. contains seen c.stats_index ≡ false) (distinct seen cs)
  distinct_unseen seen [] = tt
  distinct_unseen seen ((_, c) ∷ cs) = elim (Bool-cases (contains seen c.stats_index)) [
    | inl known ↦ rw known (distinct_unseen seen cs)
    | inr new ↦
        rw new
          (new, All_mono (λ d h. ground (arith, h)) _ (distinct_unseen (c.stats_index ∷ seen) cs))
  ]

  -- No two have the same slot.
  abbrev pub Apart : List (ResolvedCandidate V M) → Type 0
  Apart [] = Unit
  Apart (c ∷ cs) = All (λ d. c.stats_index ≢ d.stats_index) cs × Apart cs

  pub distinct-Apart :
      (seen : List ℕ) (cs : List (String × ResolvedCandidate V M)) → Apart (distinct seen cs)
  distinct-Apart seen [] = tt
  distinct-Apart seen ((_, c) ∷ cs) = elim (Bool-cases (contains seen c.stats_index)) [
    | inl known ↦ rw known (distinct-Apart seen cs)
    | inr new ↦ rw new (
      All_mono (λ d h. ground (arith, h)) _ (distinct_unseen (c.stats_index ∷ seen) cs),
      distinct-Apart (c.stats_index ∷ seen) cs,
    )
  ]

  -- A slot that was not seen is there.
  abbrev pub Shown : List ℕ → List (ResolvedCandidate V M) → ResolvedCandidate V M → Type 0
  Shown seen ds c =
      (contains seen c.stats_index ≡ true)
      ⊎ ((j : ℕ) × (d : ResolvedCandidate V M) × (get_elem? ds j ≡ some d)
          × (d.stats_index ≡ c.stats_index))

  Shown-later :
      (seen : List ℕ) (c d : ResolvedCandidate V M) (ds : List (ResolvedCandidate V M))
      → Shown (c.stats_index ∷ seen) ds d
      → Shown seen (c ∷ ds) d
  Shown-later seen c d ds (inr (j, x, at, same)) = inr (suc j, x, at, same)
  Shown-later seen c d ds (inl known) = elim (nat_eq.dec d.stats_index c.stats_index) [
    | yes same ↦ inr (0, c, refl, sym same)
    | no other ↦ inl (ground (arith, known, other))
  ]

  pub distinct-Shown :
      (seen : List ℕ) (cs : List (String × ResolvedCandidate V M))
      → All (λ (_, c). Shown seen (distinct seen cs) c) cs
  distinct-Shown seen [] = tt
  distinct-Shown seen ((a, c) ∷ cs) = elim (Bool-cases (contains seen c.stats_index)) [
    | inl known ↦
        let skipped : distinct seen cs ≡ distinct seen ((a, c) ∷ cs) = rw known refl in
        subst (λ ds. All (λ (_, d). Shown seen ds d) ((a, c) ∷ cs)) skipped
          (inl known, distinct-Shown seen cs)
    | inr new ↦
        let ds = distinct (c.stats_index ∷ seen) cs in
        let kept : c ∷ ds ≡ distinct seen ((a, c) ∷ cs) = rw new refl in
        subst (λ ds. All (λ (_, d). Shown seen ds d) ((a, c) ∷ cs)) kept
          (
            inr (0, c, refl, refl),
            All_mono (λ (_, d) s. Shown-later seen c d ds s) cs
                (distinct-Shown (c.stats_index ∷ seen) cs),
          )
  ]
