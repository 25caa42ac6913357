-- ===== src/Wire/Upstreams/Tables.antt =====
-- What holds of the tables while a server gives each open stream an alias of its own.
use iscp_go.Prelude.{ℕ, ◌≡◌, ◌≢◌, none, some, Bool, true, nat_eq, Comparable, has_key, lookup}
use iscp_go.Wire.Upstreams.{
  QoS, Upstreams, no_upstreams, open_upstream, close_upstream, read_upstream_chunk_ack,
}

module _ {Uuid Ack : Type 0} ⦃c : Comparable Uuid⦄ where
  -- No stream has the alias.
  abbrev pub IsFree : ℕ → Upstreams Uuid Ack → Type 0
  IsFree alias u = (id : Uuid) → lookup id u.aliases ≢ some alias

  -- A server gives an alias that no stream has to a stream that is not open.
  pub data Step (has_unreliable : Bool) : Upstreams Uuid Ack → Upstreams Uuid Ack → Type 0 where
    opening :
        (u : Upstreams Uuid Ack) (qos : QoS) (id : Uuid) (alias : ℕ)
        → lookup id u.aliases ≡ none
        → IsFree alias u
        → Step has_unreliable u (open_upstream has_unreliable u qos id alias)
    closing : (u : Upstreams Uuid Ack) (id : Uuid) → Step has_unreliable u (close_upstream u id)
    acknowledging :
        (u : Upstreams Uuid Ack) (alias : ℕ) (ack : Ack)
        → Step has_unreliable u (read_upstream_chunk_ack u alias ack)

  pub data Reach (has_unreliable : Bool) : Upstreams Uuid Ack → Type 0 where
    start_empty : Reach has_unreliable no_upstreams
    then_step :
        {u v : Upstreams Uuid Ack}
        → Reach has_unreliable u
        → Step has_unreliable u v
        → Reach has_unreliable v

  -- No two streams share an alias, and the channels and the writers are those of the streams.
  pub record Agree (u : Upstreams Uuid Ack) : Type 0 where
    pub apart :
        (i j : Uuid) (alias : ℕ)
        → lookup i u.aliases ≡ some alias
        → lookup j u.aliases ≡ some alias
        → i ≡ j
    pub has_writer :
        (i : Uuid) (alias : ℕ)
        → lookup i u.aliases ≡ some alias
        → has_key alias u.message_writers ≡ true
    pub writer_owned :
        (alias : ℕ)
        → has_key alias u.message_writers ≡ true
        → (i : Uuid) × (lookup i u.aliases ≡ some alias)
    pub same_keys : (alias : ℕ) → has_key alias u.acks ≡ has_key alias u.message_writers

  -- The writers and the channels are those of the open streams.
  abbrev pub NoLeak : Upstreams Uuid Ack → ℕ → Type 0
  NoLeak u alias =
      (has_key alias u.message_writers ≡ true → (i : Uuid) × (lookup i u.aliases ≡ some alias))
      × (((i : Uuid) × (lookup i u.aliases ≡ some alias)) → has_key alias u.message_writers ≡ true)
      × (has_key alias u.acks ≡ has_key alias u.message_writers)
