-- ===== src/Conn/Streams/Saving.antt =====
-- What the saving of all streams leaves in the repository.
use iscp_go.Prelude.{
  ℕ, ◌≡◌, refl, ◌∙◌, subst, inl, inr, List, [], ◌∷◌, none, some, true, false, Comparable, ◌==◌,
  nat_eq, lookup, insert, lookup-insert_same, lookup-insert_other, Bool-cases, nat_beq_iff,
}
use iscp_go.Storage.{Repository, save_upstream, save_downstream}
use iscp_go.Conn.Streams.{has, save_upstreams, save_downstreams}

module _ {Uuid U D : Type 0} ⦃c : Comparable Uuid⦄ (id_of : ℕ → Uuid) where
  save_keeps :
      (state_of : ℕ → U) (r : Repository Uuid U D) (ups : List ℕ) (up : ℕ)
      → ((p q : ℕ) → id_of p ≡ id_of q → p ≡ q)
      → lookup (id_of up) r.upstream ≡ some (state_of up)
      → lookup (id_of up) (save_upstreams id_of state_of r ups).upstream ≡ some (state_of up)
  unfolding save_upstreams save_upstream
  save_keeps state_of r [] up same h = h
  save_keeps state_of r (p ∷ ps) up same h =
      save_keeps state_of (save_upstream r (id_of p) (state_of p)).0 ps up same
        (elim (Bool-cases (p == up)) [
          | inl q ↦
              subst
                (λ x.
                  lookup (id_of x) (insert (id_of p) (state_of p) r.upstream) ≡ some (state_of x))
                ((nat_beq_iff p up).0 q) (lookup-insert_same (id_of p) (state_of p) r.upstream)
          | inr q ↦
              lookup-insert_other (id_of p) (id_of up) (state_of p) r.upstream
                (λ e. let k = (nat_beq_iff p up).1 (same p up e) in cc)
              ∙ h
        ])

  pub saved :
      (state_of : ℕ → U) (r : Repository Uuid U D) (ups : List ℕ) (up : ℕ)
      → ((p q : ℕ) → id_of p ≡ id_of q → p ≡ q)
      → has ups up ≡ true
      → lookup (id_of up) (save_upstreams id_of state_of r ups).upstream ≡ some (state_of up)
  unfolding save_upstreams save_upstream has
  saved state_of r [] up same h = absurd (cc)
  saved state_of r (p ∷ ps) up same h = elim (Bool-cases (p == up)) [
    | inl q ↦
        let e = (nat_beq_iff p up).0 q in
        save_keeps state_of (save_upstream r (id_of p) (state_of p)).0 ps up same (
          subst
            (λ x. lookup (id_of x) (insert (id_of p) (state_of p) r.upstream) ≡ some (state_of x)) e
            (lookup-insert_same (id_of p) (state_of p) r.upstream))
    | inr q ↦ saved state_of (save_upstream r (id_of p) (state_of p)).0 ps up same (rw q at h)
  ]

  pub never_saved :
      (state_of : ℕ → U) (r : Repository Uuid U D) (ups : List ℕ) (up : ℕ)
      → ((p q : ℕ) → id_of p ≡ id_of q → p ≡ q)
      → has ups up ≡ false
      → lookup (id_of up) r.upstream ≡ none
      → lookup (id_of up) (save_upstreams id_of state_of r ups).upstream ≡ none
  unfolding save_upstreams save_upstream has
  never_saved state_of r [] up same n g = g
  never_saved state_of r (p ∷ ps) up same n g = elim (Bool-cases (p == up)) [
    | inl q ↦ let k = rw q at n in absurd (cc)
    | inr q ↦
        never_saved state_of (save_upstream r (id_of p) (state_of p)).0 ps up same (rw q at n) (
          lookup-insert_other (id_of p) (id_of up) (state_of p) r.upstream
            (λ e. let k = (nat_beq_iff p up).1 (same p up e) in cc)
          ∙ g)
  ]

  pub save_downstreams_upstream :
      (state_of : ℕ → D) (r : Repository Uuid U D) (downs : List ℕ)
      → (save_downstreams id_of state_of r downs).upstream ≡ r.upstream
  unfolding save_downstreams save_downstream
  save_downstreams_upstream state_of r [] = refl
  save_downstreams_upstream state_of r (p ∷ ps) =
      save_downstreams_upstream state_of (save_downstream r (id_of p) (state_of p)).0 ps
