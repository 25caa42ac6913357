-- ===== src/Downstream/Aliases.antt =====
-- The tables of the aliases of data IDs are inverse to each other, and only grow.
use iscp_go.Prelude.{
  ℕ, suc, ◌+◌, ◌<◌, ◌≤◌, ◌≡◌, sym, ap, subst, ◌∙◌, inl, inr, List, [], ◌∷◌, ◌++◌, Option, none,
  some, ◌==◌, nat_eq, arith, if◌then◌else◌, if_cases, length, Map, lookup, insert,
  lookup-insert_same, lookup-insert_other, insert_cases,
}
use iscp_go.Ids.{AliasGenerator}
use iscp_go.Ids.Laws.{next_alias_total}
use iscp_go.Upstream.Data.{DataId, data_id_eq, MessageGroup}
use iscp_go.Downstream.{
  InfoPointer, UpstreamOrAlias, by_upstream_alias, by_info, Downstream, next_of, put_all,
  filter_data_id, give_alias, assign_data_id_alias, push_data_id_ack_buffer, process_data_points,
  has_pointer, give_info_alias, assign_upstream_info_alias, push_upstream_info_ack_buffer,
  process_upstream_alias,
}

-- The entries of one map are entries of the other.
abbrev pub Within : Map ℕ DataId → Map ℕ DataId → Type 0
Within m n = (a : ℕ) (id : DataId) → lookup a m ≡ some id → lookup a n ≡ some id

abbrev pub AllIn : Map ℕ DataId → Map ℕ DataId → Type 0
AllIn [] m = Unit {0}
AllIn ((a, id) ∷ rest) m = (lookup a m ≡ some id) × AllIn rest m

AllIn-Within : (new m n : Map ℕ DataId) → AllIn new m → Within m n → AllIn new n
AllIn-Within [] m n h w = tt
AllIn-Within ((a, id) ∷ rest) m n h w = (w a id h.0, AllIn-Within rest m n h.1 w)

AllIn-append : (new more m : Map ℕ DataId) → AllIn new m → AllIn more m → AllIn (new ++ more) m
AllIn-append [] more m h k = k
AllIn-append ((a, id) ∷ rest) more m h k = (h.0, AllIn-append rest more m h.1 k)

pub put_all-Within :
    (new buffer m : Map ℕ DataId) → AllIn new m → Within buffer m → Within (put_all new buffer) m
unfolding put_all
put_all-Within [] buffer m h w = w
put_all-Within ((a, id) ∷ rest) buffer m h w =
    put_all-Within rest (insert a id buffer) m h.1 (λ b k q. elim (insert_cases a b id k buffer q) [
      | inl (p, e) ↦ subst (λ x. lookup x m ≡ some k) p (h.0 ∙ ap some e)
      | inr (n, old) ↦ w b k old
    ])

above :
    (c a n : ℕ) → a ≡ (if c == 4294967295 then 1 else c + 1) → c + suc n < 4294967296 → a ≡ suc c
above c a n e l = ground (arith, e, l)

module _ {Uuid : Type 0} where
  pub record Inv (d : Downstream Uuid) : Type 0 where
    pub known :
        (id : DataId) (a : ℕ)
        → lookup id d.rev_data_id_aliases ≡ some a
        → lookup a d.data_id_aliases ≡ some id
    pub issued :
        (a : ℕ) (id : DataId)
        → lookup a d.data_id_aliases ≡ some id
        → a ≤ d.data_id_alias_generator.current_alias
    pub fits : d.data_id_alias_generator.current_alias < 4294967296
    pub buffered : Within d.data_id_ack_buffer d.data_id_aliases

  -- A later state, with at most so many new aliases.
  pub record After (d e : Downstream Uuid) (n : ℕ) : Type 0 where
    pub holds : Inv e
    pub grows : Within d.data_id_aliases e.data_id_aliases
    pub few : e.data_id_alias_generator.current_alias ≤ d.data_id_alias_generator.current_alias + n

  pub stays : (d : Downstream Uuid) → Inv d → After d d 0
  stays d v = record { holds = v; grows = λ a id h. h; few = omega arith }

  pub then_After :
      (d e f : Downstream Uuid) (m n k : ℕ) → m + n ≤ k → After d e m → After e f n → After d f k
  then_After d e f m n k l p q = record {
    holds = q.holds;
    grows = λ a id h. q.grows a id (p.grows a id h);
    few = omega (arith, p.few, q.few);
  }

  -- An alias that is above all aliases so far.
  inserted :
      (d : Downstream Uuid) (g : AliasGenerator) (id : DataId) (b : ℕ)
      → g.current_alias ≡ b
      → b ≡ suc d.data_id_alias_generator.current_alias
      → b < 4294967296
      → Inv d
      → After d
          (record d {
            data_id_alias_generator = g;
            data_id_aliases = insert b id d.data_id_aliases;
            rev_data_id_aliases = insert id b d.rev_data_id_aliases;
          })
          1
  inserted d g id b e s l v =
      let grows : Within d.data_id_aliases (insert b id d.data_id_aliases) = λ a k h.
        let i = v.issued a k h in
        lookup-insert_other b a id d.data_id_aliases (λ (p : b ≡ a). omega arith) ∙ h in
      record {
        grows = grows;
        few = omega (arith, e);
        holds = record {
          known = λ k a h. elim (insert_cases id k b a d.rev_data_id_aliases h) [
            | inl (p, q) ↦
                subst (λ x. lookup x (insert b id d.data_id_aliases) ≡ some k) q
                  (lookup-insert_same b id d.data_id_aliases ∙ ap some p)
            | inr (n, old) ↦ grows a k (v.known k a old)
          ];
          issued = λ a k h. elim (insert_cases b a id k d.data_id_aliases h) [
            | inl (p, q) ↦ omega (arith, e)
            | inr (n, old) ↦ let i = v.issued a k old in omega (arith, e)
          ];
          fits = omega (arith, e);
          buffered = λ a k h. grows a k (v.buffered a k h);
        };
      }

  give-After :
      (o : Option ℕ) (next : Option (AliasGenerator × ℕ)) (d : Downstream Uuid) (id : DataId)
      (a : ℕ)
      → next ≡ some (record { current_alias = a }, a)
      → a ≡ suc d.data_id_alias_generator.current_alias
      → a < 4294967296
      → Inv d
      → After d (give_alias o next d id).0 1
        × AllIn (give_alias o next d id).1 (give_alias o next d id).0.data_id_aliases
  unfolding give_alias
  give-After (some b) next d id a e s l v =
      (record { holds = v; grows = λ b k h. h; few = omega arith }, tt)
  give-After none none d id a e s l v = absurd (cc)
  give-After none (some (g, b)) d id a e s l v =
      let p : b ≡ a = cc in
      let q : g.current_alias ≡ a =
        ap
          (λ (x : Option (AliasGenerator × ℕ)). elim x [ none ↦ a | some (h, c) ↦ h.current_alias ])
          e in
      (
        inserted d g id b (q ∙ sym p) (p ∙ s) (omega arith) v,
        (lookup-insert_same b id d.data_id_aliases, tt),
      )

  -- Data IDs that get aliases.
  assign-After :
      (d : Downstream Uuid) (ids : List DataId)
      → Inv d
      → d.data_id_alias_generator.current_alias + length ids < 4294967296
      → After d (assign_data_id_alias d ids).0 (length ids)
        × AllIn (assign_data_id_alias d ids).1 (assign_data_id_alias d ids).0.data_id_aliases
  unfolding assign_data_id_alias
  assign-After d [] v l = (stays d v, tt)
  assign-After d (id ∷ ids) v l =
      let (a, e, pos, fits, value) = next_alias_total d.data_id_alias_generator 0 v.fits in
      let (one, new) =
        give-After (lookup id d.rev_data_id_aliases) (next_of d.data_id_alias_generator) d id a e
          (above d.data_id_alias_generator.current_alias a (length ids) value l) fits v in
      let (rest, more) =
        assign-After
          (give_alias (lookup id d.rev_data_id_aliases) (next_of d.data_id_alias_generator) d id).0
          ids one.holds (omega (arith, one.few, l)) in
      (
        then_After d _ _ 1 (length ids) (length (id ∷ ids)) (omega arith) one rest,
        AllIn-append _ _ _ (AllIn-Within _ _ _ new rest.grows) more,
      )

  -- The aliases of a chunk's data IDs, with the buffer of what is to be acknowledged.
  pub process-After :
      (d : Downstream Uuid) (gs : List MessageGroup)
      → Inv d
      → d.data_id_alias_generator.current_alias + length (filter_data_id gs) < 4294967296
      → After d (process_data_points d gs) (length (filter_data_id gs))
  unfolding process_data_points push_data_id_ack_buffer
  process-After d gs v l =
      let (after, new) = assign-After d (filter_data_id gs) v l in
      record {
        holds = record {
          known = after.holds.known;
          issued = after.holds.issued;
          fits = after.holds.fits;
          buffered = put_all-Within _ _ _ new after.holds.buffered;
        };
        grows = after.grows;
        few = after.few;
      }

  pushed :
      (d : Downstream Uuid) (m : Map ℕ (InfoPointer Uuid))
      → Inv d
      → After d (push_upstream_info_ack_buffer d m) 0
  unfolding push_upstream_info_ack_buffer
  pushed d m v = record {
    holds = record { known = v.known; issued = v.issued; fits = v.fits; buffered = v.buffered };
    grows = λ a id h. h;
    few = omega arith;
  }

  info_given :
      (d : Downstream Uuid) (next : Option (AliasGenerator × ℕ)) (info : InfoPointer Uuid)
      → Inv d
      → After d (give_info_alias next d info).0 0
  unfolding give_info_alias
  info_given d none info v = stays d v
  info_given d (some (g, a)) info v = record {
    holds = record { known = v.known; issued = v.issued; fits = v.fits; buffered = v.buffered };
    grows = λ a id h. h;
    few = omega arith;
  }

  pub upstream-After :
      (d : Downstream Uuid) (u : UpstreamOrAlias Uuid)
      → Inv d
      → After d (process_upstream_alias d u) 0
  unfolding process_upstream_alias assign_upstream_info_alias
  upstream-After d (by_upstream_alias a) v = stays d v
  upstream-After d (by_info info) v =
      let given =
        if_cases (λ (r : Downstream Uuid × Map ℕ (InfoPointer Uuid)). After d r.0 0)
          (has_pointer d.upstream_infos info) (λ e. stays d v)
          (λ e. info_given d (next_of d.upstream_info_alias_generator) info v) in
      then_After d _ _ 0 0 0 (omega arith) given (pushed _ _ given.holds)
