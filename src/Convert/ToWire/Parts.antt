-- ===== src/Convert/ToWire/Parts.antt =====
-- encoding/convert/proto_to_wire.go: the parts of messages. What is not an `Option` is a pointer that
-- the code follows without a test, or a number whose conversion keeps the bits: the panics at such a
-- pointer that is nil, as that of an entry of a list or a map, are outside of the model.
use iscp_go.Prelude.{ℕ, ◌*◌, ◌%◌, ◌^◌, Option, none, some, List, [], ◌∷◌, map}
use iscp_go.Convert.Outcome.{Outcome, ok, malformed, invalid_data_id, panicked, ◌>>=◌, each}
use iscp_go.Convert.Codes.{ResultCode, Qos, code_of_name, qos_of_name}
use iscp_go.Convert.Messages.Parts
use iscp_go.Convert.Messages.Parts.{by_id, by_alias, info, alias}
use iscp_go.Convert.Autogen
use iscp_go.Convert.Autogen.{data_id, data_id_alias, upstream_info, upstream_alias}
use iscp_go.Convert.Outside.{Outside}

-- The zero value of `uuid.UUID`
abbrev nil_uuid : List ℕ
nil_uuid = 0 ∷ 0 ∷ 0 ∷ 0 ∷ 0 ∷ 0 ∷ 0 ∷ 0 ∷ 0 ∷ 0 ∷ 0 ∷ 0 ∷ 0 ∷ 0 ∷ 0 ∷ 0 ∷ []

-- `time.Duration(x) * time.Second`
unfoldable pub from_seconds : ℕ → ℕ
from_seconds x = x * 1_000_000_000 % 2 ^ 64

-- `time.Duration(x) * time.Millisecond`
unfoldable pub from_milliseconds : ℕ → ℕ
from_milliseconds x = x * 1_000_000 % 2 ^ 64

unfoldable pub to_data_id : Autogen.DataId → Parts.DataId
to_data_id v = record { name = v.name; type_name = v.type_name }

unfoldable pub to_data_ids : List Autogen.DataId → List Parts.DataId
to_data_ids l = map to_data_id l

unfoldable pub to_data_id_aliases : List (ℕ × Autogen.DataId) → List (ℕ × Parts.DataId)
to_data_id_aliases l = map (λ e. (e.0, to_data_id e.1)) l

unfoldable pub to_data_filter : Autogen.DataFilter → Parts.DataFilter
to_data_filter v = record { name = v.name; type_name = v.type_name }

unfoldable pub to_downstream_filter : Autogen.DownstreamFilter → Parts.DownstreamFilter
to_downstream_filter v = record {
  source_node_id = v.source_node_id;
  data_filters = map to_data_filter v.data_filters;
}

unfoldable pub to_downstream_filters : List Autogen.DownstreamFilter → List Parts.DownstreamFilter
to_downstream_filters l = map to_downstream_filter l

unfoldable pub to_data_point : Autogen.DataPoint → Parts.DataPoint
to_data_point v = record { elapsed_time = v.elapsed_time; payload = v.payload }

unfoldable pub to_data_points : List Autogen.DataPoint → List Parts.DataPoint
to_data_points l = map to_data_point l

-- The extension fields of a struct without fields: the functions for each of them are the same.
unfoldable pub to_empty_fields : Option Autogen.EmptyFields → Option Parts.EmptyFields
to_empty_fields none = none
to_empty_fields (some e) = some (record {})

unfoldable pub to_upstream_open_request_extension_fields :
    Option Autogen.UpstreamOpenRequestExtensionFields
    → Option Parts.UpstreamOpenRequestExtensionFields
to_upstream_open_request_extension_fields none = none
to_upstream_open_request_extension_fields (some e) = some (record { persist = e.persist })

unfoldable pub to_upstream_close_request_extension_fields :
    Option Autogen.UpstreamCloseRequestExtensionFields
    → Option Parts.UpstreamCloseRequestExtensionFields
to_upstream_close_request_extension_fields none = none
to_upstream_close_request_extension_fields (some e) =
    some (record { close_session = e.close_session })

unfoldable pub to_upstream_metadata_extension_fields :
    Option Autogen.UpstreamMetadataExtensionFields → Option Parts.UpstreamMetadataExtensionFields
to_upstream_metadata_extension_fields none = none
to_upstream_metadata_extension_fields (some e) = some (record { persist = e.persist })

-- The cases of the two wrappers that are values are the same as those that are pointers.
unfoldable pub to_data_id_or_alias : Option Autogen.DataIdOrAlias → Outcome Parts.DataIdOrAlias
to_data_id_or_alias (some (data_id v)) = ok (by_id (to_data_id v))
to_data_id_or_alias (some (data_id_alias a)) = ok (by_alias a)
to_data_id_or_alias none = invalid_data_id

unfoldable pub to_data_point_group :
    Option Autogen.DataPointGroup → Outcome (Option Parts.DataPointGroup)
to_data_point_group none = ok (some (record { data_id_or_alias = none; data_points = [] }))
to_data_point_group (some g) = do
  id ← to_data_id_or_alias g.data_id_or_alias
  ok (some (record { data_id_or_alias = some id; data_points = to_data_points g.data_points }))

unfoldable pub to_data_point_groups :
    List (Option Autogen.DataPointGroup) → Outcome (List (Option Parts.DataPointGroup))
to_data_point_groups l = each to_data_point_group l

unfoldable pub to_stream_chunk : Option Autogen.StreamChunk → Outcome (Option Parts.StreamChunk)
to_stream_chunk none = ok (some (record { sequence_number = 0; data_point_groups = [] }))
to_stream_chunk (some c) = do
  groups ← to_data_point_groups c.data_point_groups
  ok (some (record { sequence_number = c.sequence_number; data_point_groups = groups }))

-- The inner loop leaves nil references out, and the outer loop nil groups.
unfoldable pub references_wire :
    List (Option Autogen.DownstreamFilterReference) → List (Option Parts.DownstreamFilterReference)
references_wire [] = []
references_wire (none ∷ vs) = references_wire vs
references_wire (some v ∷ vs) =
    some (record {
      downstream_filter_index = v.downstream_filter_index;
      data_filter_index = v.data_filter_index;
    })
    ∷ references_wire vs

unfoldable pub reference_groups_wire :
    List (Option Autogen.DownstreamFilterReferences)
    → List (List (Option Parts.DownstreamFilterReference))
reference_groups_wire [] = []
reference_groups_wire (none ∷ groups) = reference_groups_wire groups
reference_groups_wire (some group ∷ groups) =
    references_wire group.references ∷ reference_groups_wire groups

unfoldable pub to_downstream_filter_references_wire :
    Option (List (Option Autogen.DownstreamFilterReferences))
    → Option (List (List (Option Parts.DownstreamFilterReference)))
to_downstream_filter_references_wire none = none
to_downstream_filter_references_wire (some groups) = some (reference_groups_wire groups)

module _ {T P : Type 0} (o : Outside T P) where
  unfoldable pub to_result_code : ℕ → Outcome ResultCode
  to_result_code c = elim (o.result_code_name c) [ none ↦ malformed | some n ↦ ok (code_of_name n) ]

  unfoldable pub to_qos : ℕ → Outcome Qos
  to_qos q = elim (o.qos_name q) [ none ↦ malformed | some n ↦ ok (qos_of_name n) ]

  unfoldable pub to_uuid : List ℕ → Outcome (List ℕ)
  to_uuid b = elim (o.from_bytes b) [ none ↦ malformed | some u ↦ ok u ]

  -- `uuid.Must(uuid.FromBytes(b))`
  unfoldable pub must_uuid : List ℕ → Outcome (List ℕ)
  must_uuid b = elim (o.from_bytes b) [ none ↦ panicked | some u ↦ ok u ]

  unfoldable pub to_intdash_extension_fields :
      Option Autogen.IntdashExtensionFields → Outcome (Option Parts.IntdashExtensionFields)
  to_intdash_extension_fields none = ok none
  to_intdash_extension_fields (some e) = elim (o.uuid_parse e.project_uuid) [
    | none ↦ malformed
    | some u ↦ ok (some (record { project_uuid = u }))
  ]

  unfoldable pub to_connect_request_extension_fields :
      Option Autogen.ConnectRequestExtensionFields
      → Outcome (Option Parts.ConnectRequestExtensionFields)
  to_connect_request_extension_fields none = ok none
  to_connect_request_extension_fields (some e) = do
    i ← to_intdash_extension_fields e.intdash
    ok (some (record { access_token = e.access_token; intdash = i }))

  unfoldable pub to_upstream_data_point_result :
      Autogen.UpstreamChunkResult → Outcome Parts.UpstreamChunkResult
  to_upstream_data_point_result v = do
    code ← to_result_code v.result_code
    ok (record {
      sequence_number = v.sequence_number;
      result_code = code;
      result_string = v.result_string;
      extension_fields = to_empty_fields v.extension_fields;
    })

  unfoldable pub to_upstream_data_point_results :
      List Autogen.UpstreamChunkResult → Outcome (List Parts.UpstreamChunkResult)
  to_upstream_data_point_results l = each to_upstream_data_point_result l

  unfoldable pub to_downstream_data_point_result :
      Autogen.DownstreamChunkResult → Outcome Parts.DownstreamChunkResult
  to_downstream_data_point_result v = do
    code ← to_result_code v.result_code
    id ← must_uuid v.stream_id_of_upstream
    ok (record {
      stream_id_of_upstream = id;
      sequence_number_in_upstream = v.sequence_number_in_upstream;
      result_code = code;
      result_string = v.result_string;
      extension_fields = to_empty_fields v.extension_fields;
    })

  unfoldable pub to_downstream_data_point_results :
      List Autogen.DownstreamChunkResult → Outcome (List Parts.DownstreamChunkResult)
  to_downstream_data_point_results l = each to_downstream_data_point_result l

  -- The stream ID of the empty literal is the zero value.
  unfoldable pub to_upstream_info :
      Option Autogen.UpstreamInfo → Outcome (Option Parts.UpstreamInfo)
  to_upstream_info none =
      ok (some (record { session_id = ""; source_node_id = ""; stream_id = nil_uuid }))
  to_upstream_info (some v) = do
    id ← must_uuid v.stream_id
    ok (
        some
          (record { session_id = v.session_id; source_node_id = v.source_node_id; stream_id = id }))

  unfoldable pub to_upstream_alias :
      ℕ × Option Autogen.UpstreamInfo → Outcome (ℕ × Option Parts.UpstreamInfo)
  to_upstream_alias e = do v ← to_upstream_info e.1; ok (e.0, v)

  unfoldable pub to_upstream_aliases :
      List (ℕ × Option Autogen.UpstreamInfo) → Outcome (List (ℕ × Option Parts.UpstreamInfo))
  to_upstream_aliases l = each to_upstream_alias l

  unfoldable pub to_upstream_or_alias :
      Option Autogen.UpstreamOrAlias → Outcome (Option Parts.UpstreamOrAlias)
  to_upstream_or_alias (some (upstream_info v)) = do
    sid ← to_uuid v.stream_id
    ok (
        some (
          info (record {
            session_id = v.session_id;
            source_node_id = v.source_node_id;
            stream_id = sid;
          })))
  to_upstream_or_alias (some (upstream_alias a)) = ok (some (alias a))
  to_upstream_or_alias none = malformed
