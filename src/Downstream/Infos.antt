-- ===== src/Downstream/Infos.antt =====
-- The aliases of upstreams' information go by the address of the information, not by what it says.
use iscp_go.Prelude.{
  ℕ, suc, ◌≤◌, ◌≢◌, ◌==◌, refl, ◌+◌, ◌<◌, ◌≡◌, ap, ◌∙◌, [], ◌∷◌, Option, none, some, false, nat_eq,
  arith, if_cases, Map, lookup, insert, lookup-insert_same, lookup-insert_other,
}
use iscp_go.Ids.{AliasGenerator}
use iscp_go.Ids.Laws.{next_alias_total}
use iscp_go.Downstream.{
  InfoPointer, by_info, Downstream, next_of, has_pointer, give_info_alias,
  assign_upstream_info_alias, put_all, push_upstream_info_ack_buffer, process_upstream_alias,
}

module _ {Uuid : Type 0} where
  -- The alias that was given is in the table and in the buffer, and is the generator's.
  abbrev pub Gives : Downstream Uuid → InfoPointer Uuid → Type 0
  Gives d info =
      (lookup (suc d.upstream_info_alias_generator.current_alias)
          (process_upstream_alias d (by_info info)).upstream_infos
        ≡ some info)
      × (lookup (suc d.upstream_info_alias_generator.current_alias)
            (process_upstream_alias d (by_info info)).upstream_info_ack_buffer
          ≡ some info)
      × ((process_upstream_alias d (by_info info)).upstream_info_alias_generator.current_alias
          ≡ suc d.upstream_info_alias_generator.current_alias)

  abbrev pub Given :
      Downstream Uuid → InfoPointer Uuid → Downstream Uuid × Map ℕ (InfoPointer Uuid) → Type 0
  Given d info r =
      (r.0.upstream_infos
        ≡ insert (suc d.upstream_info_alias_generator.current_alias) info d.upstream_infos)
      × (r.1 ≡ ((suc d.upstream_info_alias_generator.current_alias, info) ∷ []))
      × (r.0.upstream_info_alias_generator.current_alias
          ≡ suc d.upstream_info_alias_generator.current_alias)

  new_alias :
      (next : Option (AliasGenerator × ℕ)) (d : Downstream Uuid) (info : InfoPointer Uuid) (a : ℕ)
      → next ≡ some (record { current_alias = a }, a)
      → a ≡ suc d.upstream_info_alias_generator.current_alias
      → Given d info (give_info_alias next d info)
  unfolding give_info_alias
  new_alias none d info a e s = absurd (cc)
  new_alias (some (g, b)) d info a e s =
      let p : b ≡ a = cc in
      let q : g.current_alias ≡ a =
        ap
          (λ (x : Option (AliasGenerator × ℕ)). elim x [ none ↦ a | some (h, c) ↦ h.current_alias ])
          e in
      (ap (λ k. insert k info d.upstream_infos) (p ∙ s), ap (λ k. (k, info) ∷ []) (p ∙ s), q ∙ s)

  -- No entry of the table is at the address.
  abbrev pub Elsewhere : Map ℕ (InfoPointer Uuid) → InfoPointer Uuid → Type 0
  Elsewhere [] info = Unit {0}
  Elsewhere ((a, v) ∷ rest) info = (v.address ≢ info.address) × Elsewhere rest info

  has_pointer-Elsewhere :
      (m : Map ℕ (InfoPointer Uuid)) (info : InfoPointer Uuid)
      → Elsewhere m info
      → has_pointer m info ≡ false
  unfolding has_pointer
  has_pointer-Elsewhere [] info h = refl
  has_pointer-Elsewhere ((a, v) ∷ rest) info h =
      if_cases (λ b. b ≡ false) (v.address == info.address) (λ q. absurd (ground (arith, q, h.0)))
        (λ q. has_pointer-Elsewhere rest info h.1)

  assigned :
      (d : Downstream Uuid) (info : InfoPointer Uuid)
      → Elsewhere d.upstream_infos info
      → d.upstream_info_alias_generator.current_alias + 1 < 4294967296
      → Given d info (assign_upstream_info_alias d info)
  unfolding assign_upstream_info_alias
  assigned d info new l =
      let (a, e, pos, fits, value) =
        next_alias_total d.upstream_info_alias_generator 0 (omega arith) in
      let given =
        new_alias (next_of d.upstream_info_alias_generator) d info a e (ground (arith, value, l)) in
      rw (has_pointer-Elsewhere d.upstream_infos info new) given

  -- Information at an address at which no entry of the table is gets the next alias and goes into the buffer of
  -- what is acknowledged, although an entry with the same contents has an alias, which it keeps: then
  -- the same contents have two aliases. The aliases given so far are up to the generator's, which is
  -- below the largest uint32.
  pub info_by_address :
      (d : Downstream Uuid) (info old : InfoPointer Uuid) (a : ℕ)
      → Elsewhere d.upstream_infos info
      → lookup a d.upstream_infos ≡ some old
      → old.pointee ≡ info.pointee
      → a ≤ d.upstream_info_alias_generator.current_alias
      → d.upstream_info_alias_generator.current_alias + 1 < 4294967296
      → Gives d info
        × (lookup a (process_upstream_alias d (by_info info)).upstream_infos ≡ some old)
  unfolding process_upstream_alias push_upstream_info_ack_buffer put_all
  info_by_address d info old a new known same_contents small l =
      let (t, r, g) = assigned d info new l in
      let k = suc d.upstream_info_alias_generator.current_alias in
      (
        (
          ap (lookup k) t ∙ lookup-insert_same k info d.upstream_infos,
          ap
                (λ m.
                  lookup k
                    (put_all m (assign_upstream_info_alias d info).0.upstream_info_ack_buffer))
                r
              ∙ lookup-insert_same k info
                  (assign_upstream_info_alias d info).0.upstream_info_ack_buffer,
          g,
        ),
        ap (lookup a) t
            ∙ lookup-insert_other k a info d.upstream_infos (λ q. omega (arith, q, small))
            ∙ known,
      )
