-- ===== src/Wire/Upstreams.antt =====
-- The tables that a connection keeps of its upstreams: `clientUpstreams`, with the calls that change it under its
-- mutex. A writer is one of the two transports of the connection; the table of channels holds what stands in
-- them. The identifiers of streams (a comparable type of a library), the acknowledgements and the chunks are
-- parameters.
pub mod Tables
pub mod Closing
use iscp_go.Prelude.{
  ℕ, List, [], Option, none, some, Bool, Comparable, Map, lookup, insert, erase, nat_eq,
  if◌then◌else◌,
}
use iscp_go.Wire.Queues.{dispatch}

pub data QoS : Type 0 where
  unreliable : QoS
  reliable : QoS
  partial : QoS

pub data Writer : Type 0 where
  transport : Writer
  unreliable_transport : Writer

pub record Upstreams (Uuid Ack : Type 0) : Type 0 where
  pub acks : Map ℕ (List Ack)
  pub aliases : Map Uuid ℕ
  pub message_writers : Map ℕ Writer

-- The writer of a stream, given whether the connection has an unreliable transport.
unfoldable pub writer_of : Bool → QoS → Writer
writer_of has_unreliable reliable = transport
writer_of has_unreliable partial = transport
writer_of has_unreliable unreliable = if has_unreliable then unreliable_transport else transport

pub data StreamNotExist : Type 0 where
  stream_not_exist : StreamNotExist

pub data Sent (Chunk : Type 0) : Type 0 where
  written : Writer → Chunk → Sent Chunk
  not_sent : StreamNotExist → Sent Chunk

unfoldable pub send_by : {Chunk : Type 0} → Option Writer → Chunk → Sent Chunk
send_by none chunk = not_sent stream_not_exist
send_by (some w) chunk = written w chunk

module _ {Uuid Ack : Type 0} ⦃c : Comparable Uuid⦄ where
  unfoldable pub no_upstreams : Upstreams Uuid Ack
  no_upstreams = record { acks = []; aliases = []; message_writers = [] }

  unfoldable pub subscribe_upstream_chunk_ack : Upstreams Uuid Ack → ℕ → Option (List Ack)
  subscribe_upstream_chunk_ack u alias = lookup alias u.acks

  -- Called for each response, with the alias that it has, whether or not a stream has the alias already.
  unfoldable pub open_upstream : Bool → Upstreams Uuid Ack → QoS → Uuid → ℕ → Upstreams Uuid Ack
  open_upstream has_unreliable u qos stream_id alias = record {
    acks = insert alias [] u.acks;
    aliases = insert stream_id alias u.aliases;
    message_writers = insert alias (writer_of has_unreliable qos) u.message_writers;
  }

  unfoldable pub send_upstream_chunk :
      {Chunk : Type 0} → Upstreams Uuid Ack → ℕ → Chunk → Sent Chunk
  send_upstream_chunk u alias chunk = send_by (lookup alias u.message_writers) chunk

  unfoldable pub close_alias : Option ℕ → Upstreams Uuid Ack → Uuid → Upstreams Uuid Ack
  close_alias none u stream_id = u
  close_alias (some alias) u stream_id = record {
    acks = erase alias u.acks;
    aliases = erase stream_id u.aliases;
    message_writers = erase alias u.message_writers;
  }

  -- What `SendUpstreamCloseRequest` does once the response is there, whatever its result code.
  unfoldable pub close_upstream : Upstreams Uuid Ack → Uuid → Upstreams Uuid Ack
  unfolding close_alias
  close_upstream u stream_id = close_alias (lookup stream_id u.aliases) u stream_id

  -- One round of `readUpstreamChunkAckLoop`.
  unfoldable pub read_upstream_chunk_ack : Upstreams Uuid Ack → ℕ → Ack → Upstreams Uuid Ack
  read_upstream_chunk_ack u alias ack = record u { acks = dispatch u.acks alias ack }
