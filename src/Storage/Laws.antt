-- ===== src/Storage/Laws.antt =====
-- Saving and removing as one sees them through finding.
use iscp_go.Prelude.{
  ◌≡◌, refl, ◌∙◌, inl, inr, none, some, Comparable, ◌==◌, if◌then◌else◌, Map, lookup, insert, erase,
  lookup-insert, lookup-erase, beq_refl, Bool-cases,
}
use iscp_go.Storage.{
  Repository, save_upstream, find_upstream_by_id, remove_upstream_by_id, save_downstream,
  find_downstream_by_id, remove_downstream_by_id,
}

module _ {Uuid : Type 0} ⦃c : Comparable Uuid⦄ where
  inserted :
      {V : Type 0} (id : Uuid) (info : V) (m : Map Uuid V)
      → lookup id (insert id info m) ≡ some info
  inserted id info m = lookup-insert id id info m ∙ rw (beq_refl id) refl

  erased : {V : Type 0} (id : Uuid) (m : Map Uuid V) → lookup id (erase id m) ≡ none
  erased id m = lookup-erase id id m ∙ rw (beq_refl id) refl

  without :
      {V : Type 0} (id k : Uuid) (info : V) (m : Map Uuid V)
      → (if id == k then none else lookup k (insert id info m))
        ≡ (if id == k then none else lookup k m)
  without id k info m = elim (Bool-cases (id == k)) [
    | inl e ↦ rw e refl
    | inr e ↦ rw e (lookup-insert id k info m ∙ rw e refl)
  ]

module _ {Uuid : Type 0} ⦃c : Comparable Uuid⦄ {U D : Type 0} where
  -- An upstream that is saved is found under its identifier, and can be removed; then it is not found, a
  -- second removal is an error, and every other upstream and every downstream is found as before.
  pub save-remove_upstream :
      (r : Repository Uuid U D) (id : Uuid) (info : U)
      → (find_upstream_by_id (save_upstream r id info).0 id ≡ some info)
        × ((r' : Repository Uuid U D) × (remove_upstream_by_id (save_upstream r id info).0 id
              ≡ some r')
            × (remove_upstream_by_id r' id ≡ none)
            × ((k : Uuid)
                → (find_upstream_by_id r' k ≡ (if id == k then none else find_upstream_by_id r k))
                  × (find_downstream_by_id r' k ≡ find_downstream_by_id r k)))
  unfolding save_upstream find_upstream_by_id remove_upstream_by_id find_downstream_by_id
  save-remove_upstream r id info =
      let saved = insert id info r.upstream in
      let found : lookup id saved ≡ some info = inserted id info r.upstream in
      let gone : lookup id (erase id saved) ≡ none = erased id saved in
      (
        found,
        (
          record r { upstream = erase id saved },
          rw found refl,
          rw gone refl,
          λ k. (lookup-erase id k saved ∙ without id k info r.upstream, refl),
        ),
      )

  -- A downstream that is saved is found under its identifier, and can be removed; then it is not found, a
  -- second removal is an error, and every other downstream and every upstream is found as before.
  pub save-remove_downstream :
      (r : Repository Uuid U D) (id : Uuid) (info : D)
      → (find_downstream_by_id (save_downstream r id info).0 id ≡ some info)
        × ((r' : Repository Uuid U D) × (remove_downstream_by_id (save_downstream r id info).0 id
              ≡ some r')
            × (remove_downstream_by_id r' id ≡ none)
            × ((k : Uuid)
                → (find_downstream_by_id r' k
                    ≡ (if id == k then none else find_downstream_by_id r k))
                  × (find_upstream_by_id r' k ≡ find_upstream_by_id r k)))
  unfolding save_downstream find_downstream_by_id remove_downstream_by_id find_upstream_by_id
  save-remove_downstream r id info =
      let saved = insert id info r.downstream in
      let found : lookup id saved ≡ some info = inserted id info r.downstream in
      let gone : lookup id (erase id saved) ≡ none = erased id saved in
      (
        found,
        (
          record r { downstream = erase id saved },
          rw found refl,
          rw gone refl,
          λ k. (lookup-erase id k saved ∙ without id k info r.downstream, refl),
        ),
      )
