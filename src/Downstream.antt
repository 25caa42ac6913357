-- ===== src/Downstream.antt =====
-- iscp/downstream.go: the state of a downstream under its mutex, and the calls that change it: the aliases of
-- data IDs and of upstreams, the buffers of what is to be acknowledged, and `flushAck`. The identifiers of
-- streams (a library's UUIDs) are a parameter. A pointer to an upstream's information is its address with
-- the value that it points to.
pub mod Reading
pub mod Run
pub mod Aliases
pub mod Acks
pub mod Reported
pub mod Delivery
pub mod Server
pub mod Infos
pub mod Resume
mod Tests
use iscp_go.Prelude.{
  ℕ, zero, suc, List, [], ◌∷◌, ◌++◌, Option, none, some, Bool, true, false, String, ◌==◌, ◌&&◌,
  nat_eq, if◌then◌else◌, Map, lookup, insert,
}
use iscp_go.Ids.{AliasGenerator, next_alias, SequenceNumberGenerator, next_sequence}
use iscp_go.Upstream.Data.{DataId, data_id_eq, DataIdOrAlias, by_id, by_alias, MessageGroup}

pub record UpstreamInfo (Uuid : Type 0) : Type 0 where
  pub session_id : String
  pub source_node_id : String
  pub stream_id : Uuid

pub record InfoPointer (Uuid : Type 0) : Type 0 where
  pub address : ℕ
  pub pointee : UpstreamInfo Uuid

pub data UpstreamOrAlias (Uuid : Type 0) : Type 0 where
  by_upstream_alias : ℕ → UpstreamOrAlias Uuid
  by_info : InfoPointer Uuid → UpstreamOrAlias Uuid

-- message.DownstreamChunkResult; `ok` is its code and its string as `ReadDataPoints` sets them.
pub record ChunkResult (Uuid : Type 0) : Type 0 where
  pub result_code : ℕ
  pub result_string : String
  pub sequence_number_in_upstream : ℕ
  pub stream_id_of_upstream : Uuid

-- message.DownstreamChunkAck
pub record ChunkAck (Uuid : Type 0) : Type 0 where
  pub stream_id_alias : ℕ
  pub ack_id : ℕ
  pub upstream_aliases : Map ℕ (InfoPointer Uuid)
  pub ack_data_ids : Map ℕ DataId
  pub results : List (ChunkResult Uuid)

pub record Downstream (Uuid : Type 0) : Type 0 where
  pub id_alias : ℕ
  pub data_id_aliases : Map ℕ DataId
  pub rev_data_id_aliases : Map DataId ℕ
  pub upstream_infos : Map ℕ (InfoPointer Uuid)
  pub data_id_alias_generator : AliasGenerator
  pub upstream_info_alias_generator : AliasGenerator
  pub upstream_info_ack_buffer : Map ℕ (InfoPointer Uuid)
  pub data_id_ack_buffer : Map ℕ DataId
  pub result_ack_buffer : List (ChunkResult Uuid)
  pub chunk_ack_id_sequence : SequenceNumberGenerator

-- `AliasGenerator.Next`, whose loop ends within two rounds.
abbrev pub next_of : AliasGenerator → Option (AliasGenerator × ℕ)
next_of g = next_alias 2 g

-- Entries put into a map one by one.
unfoldable pub put_all : {V : Type 0} → Map ℕ V → Map ℕ V → Map ℕ V
put_all [] m = m
put_all ((k, v) ∷ rest) m = put_all rest (insert k v m)

unfoldable pub filter_data_id : List MessageGroup → List DataId
filter_data_id [] = []
filter_data_id (g ∷ gs) = elim g.data_id_or_alias [
  | by_id id ↦ id ∷ filter_data_id gs
  | by_alias a ↦ filter_data_id gs
]

unfoldable pub is_empty : {V : Type 0} → List V → Bool
is_empty [] = true
is_empty (x ∷ xs) = false

module _ {Uuid : Type 0} where
  -- A data ID and the alias that it gets, if it has none and the generator gives one.
  unfoldable pub give_alias :
      Option ℕ
      → Option (AliasGenerator × ℕ)
      → Downstream Uuid
      → DataId
      → Downstream Uuid × Map ℕ DataId
  give_alias (some known) next d id = (d, [])
  give_alias none none d id = (d, [])
  give_alias none (some (g, a)) d id = (
    record d {
      data_id_alias_generator = g;
      data_id_aliases = insert a id d.data_id_aliases;
      rev_data_id_aliases = insert id a d.rev_data_id_aliases;
    },
    (a, id) ∷ [],
  )

  unfoldable pub assign_data_id_alias :
      Downstream Uuid → List DataId → Downstream Uuid × Map ℕ DataId
  unfolding give_alias
  assign_data_id_alias d [] = (d, [])
  assign_data_id_alias d (id ∷ ids) =
      let (d', new) =
        give_alias (lookup id d.rev_data_id_aliases) (next_of d.data_id_alias_generator) d id in
      let (d'', res) = assign_data_id_alias d' ids in (d'', new ++ res)

  unfoldable pub push_data_id_ack_buffer : Downstream Uuid → Map ℕ DataId → Downstream Uuid
  push_data_id_ack_buffer d m = record d { data_id_ack_buffer = put_all m d.data_id_ack_buffer }

  unfoldable pub process_data_points : Downstream Uuid → List MessageGroup → Downstream Uuid
  process_data_points d gs =
      let (d', m) = assign_data_id_alias d (filter_data_id gs) in push_data_id_ack_buffer d' m

  -- Whether the pointer is in the table: `v == info` compares pointers.
  unfoldable pub has_pointer : Map ℕ (InfoPointer Uuid) → InfoPointer Uuid → Bool
  has_pointer [] info = false
  has_pointer ((a, v) ∷ rest) info =
      let found = has_pointer rest info in if v.address == info.address then true else found

  unfoldable pub give_info_alias :
      Option (AliasGenerator × ℕ)
      → Downstream Uuid
      → InfoPointer Uuid
      → Downstream Uuid × Map ℕ (InfoPointer Uuid)
  give_info_alias none d info = (d, [])
  give_info_alias (some (g, a)) d info = (
    record d { upstream_info_alias_generator = g; upstream_infos = insert a info d.upstream_infos },
    (a, info) ∷ [],
  )

  unfoldable pub assign_upstream_info_alias :
      Downstream Uuid → InfoPointer Uuid → Downstream Uuid × Map ℕ (InfoPointer Uuid)
  assign_upstream_info_alias d info =
      if has_pointer d.upstream_infos info
      then (d, [])
      else give_info_alias (next_of d.upstream_info_alias_generator) d info

  unfoldable pub push_upstream_info_ack_buffer :
      Downstream Uuid → Map ℕ (InfoPointer Uuid) → Downstream Uuid
  push_upstream_info_ack_buffer d m = record d {
    upstream_info_ack_buffer = put_all m d.upstream_info_ack_buffer;
  }

  unfoldable pub process_upstream_alias : Downstream Uuid → UpstreamOrAlias Uuid → Downstream Uuid
  process_upstream_alias d (by_upstream_alias a) = d
  process_upstream_alias d (by_info info) =
      let (d', m) = assign_upstream_info_alias d info in push_upstream_info_ack_buffer d' m

  unfoldable pub push_result_ack_buffer : Downstream Uuid → ChunkResult Uuid → Downstream Uuid
  push_result_ack_buffer d res = record d { result_ack_buffer = d.result_ack_buffer ++ (res ∷ []) }

  -- The acknowledgement that is sent, if any.
  unfoldable pub flush_ack : Downstream Uuid → Downstream Uuid × Option (ChunkAck Uuid)
  flush_ack d =
      if is_empty d.data_id_ack_buffer
        && is_empty d.result_ack_buffer
        && is_empty d.upstream_info_ack_buffer
      then (d, none)
      else (
        record d {
          upstream_info_ack_buffer = [];
          data_id_ack_buffer = [];
          result_ack_buffer = [];
          chunk_ack_id_sequence = (next_sequence d.chunk_ack_id_sequence).0;
        },
        some (record {
          stream_id_alias = d.id_alias;
          ack_id = (next_sequence d.chunk_ack_id_sequence).1;
          upstream_aliases = d.upstream_info_ack_buffer;
          ack_data_ids = d.data_id_ack_buffer;
          results = d.result_ack_buffer;
        }),
      )
