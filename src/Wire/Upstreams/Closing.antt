-- ===== src/Wire/Upstreams/Closing.antt =====
-- Closing a stream leaves the others alone.
use iscp_go.Prelude.{
  ℕ, ◌≡◌, ◌≢◌, refl, ap, Option, none, some, nat_eq, Comparable, lookup, lookup-erase,
  lookup-erase_other, nat_beq_iff,
}
use iscp_go.Wire.Upstreams.{
  Upstreams, not_sent, stream_not_exist, send_by, subscribe_upstream_chunk_ack, send_upstream_chunk,
  close_alias, close_upstream,
}

module _ {Uuid Ack Chunk : Type 0} ⦃c : Comparable Uuid⦄ where
  -- An alias serves in one state of the tables as in another.
  abbrev pub SameService : Upstreams Uuid Ack → Upstreams Uuid Ack → ℕ → Chunk → Type 0
  SameService u v alias chunk =
      (send_upstream_chunk v alias chunk ≡ send_upstream_chunk u alias chunk)
      × (subscribe_upstream_chunk_ack v alias ≡ subscribe_upstream_chunk_ack u alias)

  abbrev pub NoService : Upstreams Uuid Ack → ℕ → Chunk → Type 0
  NoService u alias chunk =
      (send_upstream_chunk u alias chunk ≡ not_sent stream_not_exist)
      × (subscribe_upstream_chunk_ack u alias ≡ none)

module _ {Uuid Ack Chunk : Type 0} ⦃c : Comparable Uuid⦄ where
  closed_alias :
      (o : Option ℕ) (u : Upstreams Uuid Ack) (id : Uuid) (alias : ℕ) (chunk : Chunk)
      → o ≡ some alias
      → NoService (close_alias o u id) alias chunk
  unfolding close_alias send_upstream_chunk subscribe_upstream_chunk_ack send_by
  closed_alias none u id alias chunk e = absurd (cc)
  closed_alias (some a) u id alias chunk e =
      let q = (nat_beq_iff a alias).1 (cc) in
      rw (lookup-erase a alias u.message_writers, lookup-erase a alias u.acks, q) (refl, refl)

  other_alias :
      (o : Option ℕ) (u : Upstreams Uuid Ack) (id : Uuid) (alias : ℕ) (chunk : Chunk)
      → o ≢ some alias
      → SameService u (close_alias o u id) alias chunk
  unfolding close_alias send_upstream_chunk subscribe_upstream_chunk_ack send_by
  other_alias none u id alias chunk n = (refl, refl)
  other_alias (some a) u id alias chunk n =
      let apart = λ (q : a ≡ alias). n (ap some q) in
      (
        ap (λ o. send_by o chunk) (lookup-erase_other a alias u.message_writers apart),
        lookup-erase_other a alias u.acks apart,
      )

  -- Closing an open stream takes the writer and the channel of its alias, so that a chunk with this alias is
  -- refused and its acknowledgements cannot be subscribed, whichever stream asks, and leaves the writer
  -- and the channel of any other alias.
  pub close_isolates :
      (u : Upstreams Uuid Ack) (id : Uuid) (alias other : ℕ) (chunk : Chunk)
      → lookup id u.aliases ≡ some alias
      → alias ≢ other
      → NoService (close_upstream u id) alias chunk
        × SameService u (close_upstream u id) other chunk
  unfolding close_upstream
  close_isolates u id alias other chunk found apart = (
    closed_alias (lookup id u.aliases) u id alias chunk found,
    other_alias (lookup id u.aliases) u id other chunk (λ q. apart (cc)),
  )
