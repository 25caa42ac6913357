-- ===== src/Conn/Streams/Closing.antt =====
-- Which upstreams' state the repository keeps when the connection closes while streams end.
use iscp_go.Prelude.{
  ℕ, ◌≡◌, refl, sym, ap, ◌∙◌, subst, inl, inr, List, [], ◌∷◌, Option, none, some, true, false, Bool,
  if◌then◌else◌, if_cases, arith, beq_refl, lookup-erase, Comparable, ◌==◌, nat_eq, lookup,
  lookup-erase_same, Bool-cases, nat_beq_iff,
}
use iscp_go.Storage.{
  Repository, find_upstream_by_id, removed_upstream, remove_upstream_by_id, removed_downstream,
  remove_downstream_by_id,
}
use iscp_go.Conn.Streams.{
  Streams, or_same, has, unregister_upstream, save_upstreams, save_and_clear_all_upstreams,
  save_and_clear_all_downstreams, close_streams, Ended, upstream_ended, downstream_ended,
  unregister, unregister_all, unregister_downstream, delete,
}
use iscp_go.Conn.Streams.Saving.{never_saved, saved, save_downstreams_upstream}

-- Whether the end is that of the upstream, and whether one of them is.
abbrev pub is_end : ℕ → Ended → Bool
is_end up (upstream_ended p) = p == up
is_end up (downstream_ended p) = false

unfoldable pub has_ended : ℕ → List Ended → Bool
has_ended up [] = false
has_ended up (e ∷ es) = let rest = has_ended up es in if is_end up e then true else rest

has-delete :
    (qs : List ℕ) (p up : ℕ) → has (delete qs p) up ≡ (if p == up then false else has qs up)
unfolding has delete
has-delete [] p up = if_cases (λ b. false ≡ b) (p == up) (λ e. refl) (λ e. refl)
has-delete (q ∷ qs) p up = ground (arith, has-delete qs p up)

module _ {Uuid U D : Type 0} ⦃c : Comparable Uuid⦄ (id_of : ℕ → Uuid) where
  removed_lookup :
      (o : Option U) (r : Repository Uuid U D) (id other : Uuid)
      → lookup other r.upstream ≡ none
      → lookup other (or_same r (removed_upstream o r id)).upstream ≡ none
  unfolding or_same removed_upstream
  removed_lookup none r id other e = e
  removed_lookup (some u) r id other e =
      lookup-erase id other r.upstream ∙ if_cases (λ x. x ≡ none) (id == other) (λ q. refl) (λ q. e)

  removed :
      (o : Option U) (r : Repository Uuid U D) (id : Uuid)
      → o ≡ lookup id r.upstream
      → lookup id (or_same r (removed_upstream o r id)).upstream ≡ none
  unfolding or_same removed_upstream
  removed none r id e = sym e
  removed (some u) r id e = lookup-erase_same id r.upstream

  removed_down :
      (o : Option D) (r : Repository Uuid U D) (id : Uuid)
      → (or_same r (removed_downstream o r id)).upstream ≡ r.upstream
  unfolding or_same removed_downstream
  removed_down none r id = refl
  removed_down (some d) r id = refl

  downstream_leaves :
      (s : Streams Uuid U D) (down : ℕ)
      → ((unregister_downstream id_of s down).upstreams ≡ s.upstreams)
        × ((unregister_downstream id_of s down).repository.upstream ≡ s.repository.upstream)
  unfolding unregister_downstream remove_downstream_by_id
  downstream_leaves s down =
      if_cases
        (λ (t : Streams Uuid U D).
          (t.upstreams ≡ s.upstreams) × (t.repository.upstream ≡ s.repository.upstream))
        (has s.downstreams down)
        (λ q. (
          refl,
          removed_down (lookup (id_of down) s.repository.downstream) s.repository (id_of down),
        ))
        (λ q. (refl, refl))

  -- A stream that has ended: it is not registered, and the repository has no state of it.
  abbrev Gone : ℕ → Streams Uuid U D → Type 0
  Gone up s = (has s.upstreams up ≡ false) × (lookup (id_of up) s.repository.upstream ≡ none)

  unregister-Gone :
      (s : Streams Uuid U D) (up : ℕ) (e : Ended) → Gone up s → Gone up (unregister id_of s e)
  unfolding unregister_upstream remove_upstream_by_id
  unregister-Gone s up (downstream_ended down) (h, g) =
      let (u, r) = downstream_leaves s down in
      (ap (λ l. has l up) u ∙ h, ap (lookup (id_of up)) r ∙ g)
  unregister-Gone s up (upstream_ended p) (h, g) =
      if_cases (λ (t : Streams Uuid U D). Gone up t) (has s.upstreams p)
        (λ q. (
          has-delete s.upstreams p up ∙ if_cases (λ x. x ≡ false) (p == up) (λ e. refl) (λ e. h),
          removed_lookup (lookup (id_of p) s.repository.upstream) s.repository (id_of p) (id_of up)
              g,
        ))
        (λ q. (h, g))

  unregister_upstream-Gone :
      (s : Streams Uuid U D) (up : ℕ)
      → has s.upstreams up ≡ true
      → Gone up (unregister_upstream id_of s up)
  unfolding unregister_upstream remove_upstream_by_id
  unregister_upstream-Gone s up h = rw h (
    has-delete s.upstreams up up
        ∙ ap (λ (b : Bool). if b then false else has s.upstreams up) (beq_refl up),
    removed (lookup (id_of up) s.repository.upstream) s.repository (id_of up) refl,
  )

  others_stay :
      (s : Streams Uuid U D) (up : ℕ) (e : Ended)
      → is_end up e ≡ false
      → has s.upstreams up ≡ true
      → has (unregister id_of s e).upstreams up ≡ true
  unfolding unregister_upstream
  others_stay s up (downstream_ended down) n h = ap (λ l. has l up) (downstream_leaves s down).0 ∙ h
  others_stay s up (upstream_ended p) n h =
      if_cases (λ (t : Streams Uuid U D). has t.upstreams up ≡ true) (has s.upstreams p)
        (λ q.
          has-delete s.upstreams p up
          ∙ ap (λ (b : Bool). if b then false else has s.upstreams up) n
          ∙ h)
        (λ q. h)

  unregister_all-Gone :
      (s : Streams Uuid U D) (up : ℕ) (es : List Ended)
      → Gone up s
      → Gone up (unregister_all id_of s es)
  unfolding unregister_all
  unregister_all-Gone s up [] g = g
  unregister_all-Gone s up (e ∷ es) g =
      unregister_all-Gone (unregister id_of s e) up es (unregister-Gone s up e g)

  own_end :
      (s : Streams Uuid U D) (up : ℕ) (e : Ended)
      → is_end up e ≡ true
      → has s.upstreams up ≡ true
      → Gone up (unregister id_of s e)
  own_end s up (downstream_ended down) y h = absurd (cc)
  own_end s up (upstream_ended p) y h =
      let e = (nat_beq_iff p up).0 y in
      subst (λ x. Gone up (unregister_upstream id_of s x)) (sym e) (unregister_upstream-Gone s up h)

  -- After some streams have ended, one that was registered is gone or still registered.
  after_ends :
      (s : Streams Uuid U D) (up : ℕ) (es : List Ended)
      → has s.upstreams up ≡ true
      → (has_ended up es ≡ true → Gone up (unregister_all id_of s es))
        × (has_ended up es ≡ false → has (unregister_all id_of s es).upstreams up ≡ true)
  unfolding unregister_all has_ended
  after_ends s up [] h = (λ q. absurd (cc), λ q. h)
  after_ends s up (e ∷ es) h = elim (Bool-cases (is_end up e)) [
    | inr n ↦ rw n (after_ends (unregister id_of s e) up es (others_stay s up e n h))
    | inl y ↦ rw y (
      λ q. unregister_all-Gone (unregister id_of s e) up es (own_end s up e y h),
      λ q. absurd (cc),
    )
  ]

  -- What the repository has of a stream stays once no upstream is registered.
  stays :
      (s : Streams Uuid U D) (es : List Ended)
      → s.upstreams ≡ []
      → ((unregister_all id_of s es).upstreams ≡ [])
        × ((unregister_all id_of s es).repository.upstream ≡ s.repository.upstream)
  unfolding unregister_all
  stays s [] n = (n, refl)
  stays s (upstream_ended up ∷ es) n =
      let same : unregister_upstream id_of s up ≡ s = unfold unregister_upstream has in rw n refl in
      subst
        (λ t.
          ((unregister_all id_of t es).upstreams ≡ [])
          × ((unregister_all id_of t es).repository.upstream ≡ s.repository.upstream))
        (sym same) (stays s es n)
  stays s (downstream_ended down ∷ es) n =
      let (u, r) = downstream_leaves s down in
      let (m, q) = stays (unregister_downstream id_of s down) es (u ∙ n) in (m, q ∙ r)

  closed_lookup :
      (upstream_state : ℕ → U) (downstream_state : ℕ → D) (s : Streams Uuid U D)
      (early between late : List Ended) (up : ℕ)
      → lookup
          (id_of up)
          (unregister_all id_of
            (close_streams id_of upstream_state downstream_state early between s)
            late).repository.upstream
        ≡ lookup
            (id_of up)
            (save_upstreams id_of upstream_state
              (unregister_all id_of s early).repository
              (unregister_all id_of s early).upstreams).upstream
  unfolding close_streams save_and_clear_all_upstreams save_and_clear_all_downstreams
  closed_lookup upstream_state downstream_state s early between late up =
      let t = unregister_all id_of s early in
      let saved_ups = save_and_clear_all_upstreams id_of upstream_state t in
      let v = unregister_all id_of saved_ups between in
      let (none_left, kept) = stays saved_ups between refl in
      let (_, last) =
        stays (save_and_clear_all_downstreams id_of downstream_state v) late none_left in
      ap (lookup (id_of up))
        (last ∙ save_downstreams_upstream id_of downstream_state v.repository v.downstreams ∙ kept)

  -- For an upstream that is registered when the connection closes, where different streams have different
  -- identifiers, whatever other streams end and whenever: the repository has the upstream's state of
  -- that moment, unless the upstream ends between the exchange of the status and the saving of the
  -- upstreams; then it has none. What ends after the saving does not count.
  pub close_keeps_streams :
      (upstream_state : ℕ → U) (downstream_state : ℕ → D) (s : Streams Uuid U D)
      (early between late : List Ended) (up : ℕ)
      → ((p q : ℕ) → id_of p ≡ id_of q → p ≡ q)
      → has s.upstreams up ≡ true
      → find_upstream_by_id
          (unregister_all id_of
            (close_streams id_of upstream_state downstream_state early between s)
            late).repository
          (id_of up)
        ≡ (if has_ended up early then none else some (upstream_state up))
  unfolding find_upstream_by_id
  close_keeps_streams upstream_state downstream_state s early between late up same h =
      let t = unregister_all id_of s early in
      let (gone, open_still) = after_ends s up early h in
      closed_lookup upstream_state downstream_state s early between late up
      ∙ elim (Bool-cases (has_ended up early)) [
        | inl e ↦
            let (n, g) = gone e in
            rw e (never_saved id_of upstream_state t.repository t.upstreams up same n g)
        | inr e ↦ rw e (saved id_of upstream_state t.repository t.upstreams up same (open_still e))
      ]
