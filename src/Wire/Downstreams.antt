-- ===== src/Wire/Downstreams.antt =====
-- The tables that a connection keeps of its downstreams: `clientDownstreams`, with the calls that change it under
-- its mutex. The tables hold what stands in the channels. The identifiers of streams and of nodes, the chunks,
-- the completions of acknowledgements and the metadata are parameters.
pub mod Closing
use iscp_go.Prelude.{
  ℕ, List, [], Option, none, some, Bool, Comparable, Map, lookup, insert, erase, nat_eq,
  if◌then◌else◌,
}
use iscp_go.Wire.Queues.{dispatch, offer}
use iscp_go.Wire.Upstreams.{QoS, unreliable, reliable, partial}

pub record Downstreams (Uuid Node Chunk Complete Meta : Type 0) : Type 0 where
  pub dps : Map ℕ (List Chunk)
  pub dps_unreliable : Map ℕ (List Chunk)
  pub ack_completes : Map ℕ (List Complete)
  pub metadata : Map ℕ (Map Node (List Meta))
  pub stream_aliases : Map Uuid ℕ

-- The outcome of a subscription, with the tables after it.
pub data Subscribed (T : Type 0) : Type 0 where
  subscribed : T → Subscribed T
  already_subscribed : Subscribed T

-- A new channel in the place of an alias, unless there is one.
unfoldable pub subscribe_in : {T V : Type 0} → Option V → T → Subscribed T
subscribe_in none tables = subscribed tables
subscribe_in (some q) tables = already_subscribed

unfoldable pub or_empty_map : {K V : Type 0} → Option (Map K V) → Map K V
or_empty_map none = []
or_empty_map (some m) = m

unfoldable pub put_in :
    {Node Meta : Type 0} ⦃n : Comparable Node⦄
    → Option (List Meta)
    → Map Node (List Meta)
    → Node
    → Meta
    → Map Node (List Meta)
put_in none chs source_node_id m = chs
put_in (some q) chs source_node_id m = insert source_node_id (offer q m) chs

unfoldable pub put_metadata :
    {Node Meta : Type 0} ⦃n : Comparable Node⦄
    → Option (Map Node (List Meta))
    → Map ℕ (Map Node (List Meta))
    → ℕ
    → Node
    → Meta
    → Map ℕ (Map Node (List Meta))
put_metadata none tables alias source_node_id m = tables
put_metadata (some chs) tables alias source_node_id m =
    insert alias (put_in (lookup source_node_id chs) chs source_node_id m) tables

module _ {Uuid Node Chunk Complete Meta : Type 0} ⦃c : Comparable Uuid⦄ ⦃n : Comparable Node⦄ where
  unfoldable pub no_downstreams : Downstreams Uuid Node Chunk Complete Meta
  no_downstreams = record {
    dps = [];
    dps_unreliable = [];
    ack_completes = [];
    metadata = [];
    stream_aliases = [];
  }

  unfoldable pub new_downstream_chunk_ch :
      Downstreams Uuid Node Chunk Complete Meta
      → ℕ
      → Subscribed (Downstreams Uuid Node Chunk Complete Meta)
  new_downstream_chunk_ch d alias =
      subscribe_in (lookup alias d.dps) (record d { dps = insert alias [] d.dps })

  unfoldable pub new_downstream_chunk_unreliable_ch :
      Downstreams Uuid Node Chunk Complete Meta
      → ℕ
      → Subscribed (Downstreams Uuid Node Chunk Complete Meta)
  new_downstream_chunk_unreliable_ch d alias =
      subscribe_in (lookup alias d.dps_unreliable)
        (record d { dps_unreliable = insert alias [] d.dps_unreliable })

  -- Given whether the connection has an unreliable transport.
  unfoldable pub subscribe_downstream_chunk :
      Bool
      → Downstreams Uuid Node Chunk Complete Meta
      → ℕ
      → QoS
      → Subscribed (Downstreams Uuid Node Chunk Complete Meta)
  subscribe_downstream_chunk has_unreliable d alias reliable = new_downstream_chunk_ch d alias
  subscribe_downstream_chunk has_unreliable d alias partial = new_downstream_chunk_ch d alias
  subscribe_downstream_chunk has_unreliable d alias unreliable =
      if has_unreliable
      then new_downstream_chunk_unreliable_ch d alias
      else new_downstream_chunk_ch d alias

  unfoldable pub subscribe_downstream_chunk_ack_complete :
      Downstreams Uuid Node Chunk Complete Meta
      → ℕ
      → Subscribed (Downstreams Uuid Node Chunk Complete Meta)
  subscribe_downstream_chunk_ack_complete d alias =
      subscribe_in (lookup alias d.ack_completes)
        (record d { ack_completes = insert alias [] d.ack_completes })

  unfoldable pub subscribe_downstream_meta :
      Downstreams Uuid Node Chunk Complete Meta
      → ℕ
      → Node
      → Downstreams Uuid Node Chunk Complete Meta
  subscribe_downstream_meta d alias src_node_id = record d {
    metadata =
        insert alias (insert src_node_id [] (or_empty_map (lookup alias d.metadata))) d.metadata;
  }

  -- What `SendDownstreamOpenRequest` and `SendDownstreamResumeRequest` do once the response is there, whatever its
  -- result code.
  unfoldable pub set_alias :
      Downstreams Uuid Node Chunk Complete Meta
      → Uuid
      → ℕ
      → Downstreams Uuid Node Chunk Complete Meta
  set_alias d stream_id alias = record d {
    stream_aliases = insert stream_id alias d.stream_aliases;
  }

  unfoldable pub close_downstream_alias :
      Option ℕ
      → Downstreams Uuid Node Chunk Complete Meta
      → Uuid
      → Downstreams Uuid Node Chunk Complete Meta
  close_downstream_alias none d stream_id = d
  close_downstream_alias (some alias) d stream_id = record {
    dps = erase alias d.dps;
    dps_unreliable = erase alias d.dps_unreliable;
    ack_completes = erase alias d.ack_completes;
    metadata = erase alias d.metadata;
    stream_aliases = erase stream_id d.stream_aliases;
  }

  -- What `SendDownstreamCloseRequest` does once the response is there.
  unfoldable pub close_downstream :
      Downstreams Uuid Node Chunk Complete Meta → Uuid → Downstreams Uuid Node Chunk Complete Meta
  unfolding close_downstream_alias
  close_downstream d stream_id =
      close_downstream_alias (lookup stream_id d.stream_aliases) d stream_id

  -- One round of each of the four loops that read.
  unfoldable pub read_downstream_chunk :
      Downstreams Uuid Node Chunk Complete Meta
      → ℕ
      → Chunk
      → Downstreams Uuid Node Chunk Complete Meta
  read_downstream_chunk d alias m = record d { dps = dispatch d.dps alias m }

  unfoldable pub read_downstream_chunk_unreliable :
      Downstreams Uuid Node Chunk Complete Meta
      → ℕ
      → Chunk
      → Downstreams Uuid Node Chunk Complete Meta
  read_downstream_chunk_unreliable d alias m = record d {
    dps_unreliable = dispatch d.dps_unreliable alias m;
  }

  unfoldable pub read_downstream_chunk_ack_complete :
      Downstreams Uuid Node Chunk Complete Meta
      → ℕ
      → Complete
      → Downstreams Uuid Node Chunk Complete Meta
  read_downstream_chunk_ack_complete d alias m = record d {
    ack_completes = dispatch d.ack_completes alias m;
  }

  unfoldable pub read_downstream_metadata :
      Downstreams Uuid Node Chunk Complete Meta
      → ℕ
      → Node
      → Meta
      → Downstreams Uuid Node Chunk Complete Meta
  unfolding put_metadata
  read_downstream_metadata d alias source_node_id m = record d {
    metadata = put_metadata (lookup alias d.metadata) d.metadata alias source_node_id m;
  }
