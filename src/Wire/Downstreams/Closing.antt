-- ===== src/Wire/Downstreams/Closing.antt =====
-- What a stream leaves behind when it is closed.
use iscp_go.Prelude.{
  ℕ, ◌≡◌, ◌≢◌, sym, ◌∙◌, Option, none, some, Bool, Comparable, Map, lookup, erase, nat_eq,
  lookup-erase_other, lookup-erase_same, subst, if_cases,
}
use iscp_go.Wire.Upstreams.{QoS, unreliable, reliable, partial}
use iscp_go.Wire.Downstreams.{
  Downstreams, already_subscribed, subscribe_in, new_downstream_chunk_ch,
  new_downstream_chunk_unreliable_ch, subscribe_downstream_chunk,
  subscribe_downstream_chunk_ack_complete, close_downstream_alias, close_downstream,
}

module _ {Uuid Node Chunk Complete Meta : Type 0} ⦃c : Comparable Uuid⦄ ⦃n : Comparable Node⦄ where
  -- The channels of an alias are the same in two states.
  abbrev pub SameChannels :
      Downstreams Uuid Node Chunk Complete Meta
      → Downstreams Uuid Node Chunk Complete Meta
      → ℕ
      → Type 0
  SameChannels d e alias =
      (lookup alias e.dps ≡ lookup alias d.dps)
      × (lookup alias e.dps_unreliable ≡ lookup alias d.dps_unreliable)
      × (lookup alias e.ack_completes ≡ lookup alias d.ack_completes)
      × (lookup alias e.metadata ≡ lookup alias d.metadata)

  abbrev pub NoChannels : Downstreams Uuid Node Chunk Complete Meta → ℕ → Type 0
  NoChannels d alias =
      (lookup alias d.dps ≡ none)
      × (lookup alias d.dps_unreliable ≡ none)
      × (lookup alias d.ack_completes ≡ none)
      × (lookup alias d.metadata ≡ none)

  -- Subscriptions of an alias succeed, for every QoS.
  abbrev pub CanSubscribe : Bool → Downstreams Uuid Node Chunk Complete Meta → ℕ → Type 0
  CanSubscribe has_unreliable d alias =
      ((qos : QoS) → subscribe_downstream_chunk has_unreliable d alias qos ≢ already_subscribed)
      × (subscribe_downstream_chunk_ack_complete d alias ≢ already_subscribed)

subscribe-new :
    {T V : Type 0} (o : Option V) (t : T) → o ≡ none → subscribe_in o t ≢ already_subscribed
unfolding subscribe_in
subscribe-new none t e = λ q. cc
subscribe-new (some v) t e = absurd (cc)

module _ {Uuid Node Chunk Complete Meta : Type 0} ⦃c : Comparable Uuid⦄ ⦃n : Comparable Node⦄ where
  NoChannels-CanSubscribe :
      (b : Bool) (d : Downstreams Uuid Node Chunk Complete Meta) (alias : ℕ)
      → NoChannels d alias
      → CanSubscribe b d alias
  unfolding subscribe_downstream_chunk_ack_complete
  NoChannels-CanSubscribe b d alias (e, f, g, h) =
      (by_qos, subscribe-new (lookup alias d.ack_completes) _ g)
    where
      on_reliable : new_downstream_chunk_ch d alias ≢ already_subscribed
      on_reliable = unfold new_downstream_chunk_ch in subscribe-new (lookup alias d.dps) _ e

      on_unreliable : new_downstream_chunk_unreliable_ch d alias ≢ already_subscribed
      on_unreliable =
          unfold new_downstream_chunk_unreliable_ch in
          subscribe-new (lookup alias d.dps_unreliable) _ f

      by_qos : (qos : QoS) → subscribe_downstream_chunk b d alias qos ≢ already_subscribed
      by_qos reliable = unfold subscribe_downstream_chunk in on_reliable
      by_qos partial = unfold subscribe_downstream_chunk in on_reliable
      by_qos unreliable =
          unfold subscribe_downstream_chunk in
          if_cases (λ s. s ≢ already_subscribed) b (λ q. on_unreliable) (λ q. on_reliable)

  closed_channels :
      (o : Option ℕ) (d : Downstreams Uuid Node Chunk Complete Meta) (id : Uuid) (alias : ℕ)
      → o ≡ some alias
      → NoChannels (close_downstream_alias o d id) alias
        × ((other : ℕ) → alias ≢ other → SameChannels d (close_downstream_alias o d id) other)
  unfolding close_downstream_alias
  closed_channels none d id alias e = absurd (cc)
  closed_channels (some a) d id alias e =
      let same : alias ≡ a = cc in
      (
        (
          lookup-erase_at _ same,
          lookup-erase_at _ same,
          lookup-erase_at _ same,
          lookup-erase_at _ same,
        ),
        λ other k.
            let apart = λ (q : a ≡ other). k (same ∙ q) in
            (
              lookup-erase_other a other d.dps apart,
              lookup-erase_other a other d.dps_unreliable apart,
              lookup-erase_other a other d.ack_completes apart,
              lookup-erase_other a other d.metadata apart,
            ),
      )
    where
      lookup-erase_at : {V : Type 0} (m : Map ℕ V) → alias ≡ a → lookup alias (erase a m) ≡ none
      lookup-erase_at m q = subst (λ k. lookup k (erase a m) ≡ none) (sym q) (lookup-erase_same a m)

  -- Closing a downstream that has an alias takes all channels of this alias, so that it can be subscribed again for
  -- every QoS, and leaves those of all other aliases.
  pub close_downstream_lem :
      (has_unreliable : Bool) (d : Downstreams Uuid Node Chunk Complete Meta) (id : Uuid)
      (alias : ℕ)
      → lookup id d.stream_aliases ≡ some alias
      → NoChannels (close_downstream d id) alias
        × CanSubscribe has_unreliable (close_downstream d id) alias
        × ((other : ℕ) → alias ≢ other → SameChannels d (close_downstream d id) other)
  unfolding close_downstream
  close_downstream_lem b d id alias found =
      let (gone, kept) = closed_channels (lookup id d.stream_aliases) d id alias found in
      (gone, NoChannels-CanSubscribe b _ alias gone, kept)
