-- ===== src/Downstream/Reading.antt =====
-- `wireToDownstreamChunk` and `ReadDataPoints`, once a chunk has arrived.
use iscp_go.Prelude.{ℕ, List, [], ◌∷◌, Option, none, some, String, Map, lookup, nat_eq}
use iscp_go.Upstream.Data.{DataId, DataPointGroups, DataIdOrAlias, by_id, by_alias, MessageGroup}
use iscp_go.Downstream.{
  UpstreamInfo, InfoPointer, UpstreamOrAlias, by_upstream_alias, by_info, Downstream,
  process_upstream_alias, process_data_points, push_result_ack_buffer,
}

-- message.DownstreamChunk, with its message.StreamChunk; a reference to a filter is its two indices.
pub record WireChunk (Uuid : Type 0) : Type 0 where
  pub upstream_or_alias : UpstreamOrAlias Uuid
  pub sequence_number : ℕ
  pub data_point_groups : List MessageGroup
  pub filter_references : List (List (ℕ × ℕ))

-- iscp.DownstreamChunk
pub record DownstreamChunk (Uuid : Type 0) : Type 0 where
  pub chunk_sequence_number : ℕ
  pub chunk_groups : DataPointGroups
  pub upstream_info : UpstreamInfo Uuid
  pub chunk_filter_references : List (List (ℕ × ℕ))

pub data ReadError : Type 0 where
  invalid_upstream_info_alias : ReadError
  invalid_data_id_alias : ReadError

pub data Read (A : Type 0) : Type 0 where
  got : A → Read A
  failed : ReadError → Read A

abbrev pub and_then : {A B : Type 0} → Read A → (A → Read B) → Read B
and_then (got a) f = f a
and_then (failed e) f = failed e

abbrev pub or_fail : {A : Type 0} → ReadError → Option A → Read A
or_fail e none = failed e
or_fail e (some a) = got a

-- `ResultCodeSucceeded`, and its string.
abbrev pub succeeded : ℕ
succeeded = 1

abbrev pub ok : String
ok = "OK"

unfoldable pub data_id_of : Map ℕ DataId → DataIdOrAlias → Read DataId
data_id_of aliases (by_id id) = got id
data_id_of aliases (by_alias a) = or_fail invalid_data_id_alias (lookup a aliases)

unfoldable pub groups_of_wire : Map ℕ DataId → List MessageGroup → Read DataPointGroups
groups_of_wire aliases [] = got []
groups_of_wire aliases (g ∷ gs) = and_then (data_id_of aliases g.data_id_or_alias) (λ id.
    and_then (groups_of_wire aliases gs)
      (λ rest. got (record { data_id = id; data_points = g.group_points } ∷ rest)))

module _ {Uuid : Type 0} where
  unfoldable pub info_of :
      Map ℕ (InfoPointer Uuid) → UpstreamOrAlias Uuid → Read (UpstreamInfo Uuid)
  info_of infos (by_info p) = got p.pointee
  info_of infos (by_upstream_alias a) =
      and_then (or_fail invalid_upstream_info_alias (lookup a infos)) (λ p. got p.pointee)

  unfoldable pub wire_to_downstream_chunk :
      Downstream Uuid → WireChunk Uuid → Read (DownstreamChunk Uuid)
  wire_to_downstream_chunk d dps =
      and_then (info_of d.upstream_infos dps.upstream_or_alias) (λ info.
        and_then (groups_of_wire d.data_id_aliases dps.data_point_groups) (λ dpgs. got (record {
          chunk_sequence_number = dps.sequence_number;
          chunk_groups = dpgs;
          upstream_info = info;
          chunk_filter_references = dps.filter_references;
        })))

  unfoldable pub acknowledge :
      Downstream Uuid → WireChunk Uuid → Read (DownstreamChunk Uuid) → Downstream Uuid
  acknowledge d dps (failed e) = d
  acknowledge d dps (got ps) = push_result_ack_buffer d (record {
    result_code = succeeded;
    result_string = ok;
    sequence_number_in_upstream = dps.sequence_number;
    stream_id_of_upstream = ps.upstream_info.stream_id;
  })

  -- Both kinds of aliases are given out before anything can fail.
  unfoldable pub aliases_given : Downstream Uuid → WireChunk Uuid → Downstream Uuid
  aliases_given d dps =
      process_data_points (process_upstream_alias d dps.upstream_or_alias) dps.data_point_groups

  -- One call, as long as no other call changes the downstream between its stretches under the mutex.
  unfoldable pub read_data_points :
      Downstream Uuid → WireChunk Uuid → Downstream Uuid × Read (DownstreamChunk Uuid)
  unfolding acknowledge aliases_given
  read_data_points d dps =
      let d' = aliases_given d dps in
      let ps = wire_to_downstream_chunk d' dps in (acknowledge d' dps ps, ps)
