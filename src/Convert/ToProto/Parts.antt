-- ===== src/Convert/ToProto/Parts.antt =====
-- encoding/convert/wire_to_proto.go: the parts of messages. What is not an `Option` is a pointer that
-- the code follows without a test, or a number whose conversion keeps the bits: the panics at such a
-- pointer that is nil, as that of an entry of a list or a map, are outside of the model.
use iscp_go.Prelude.{ℕ, Option, none, some, List, [], ◌∷◌, map, if◌then◌else◌}
use iscp_go.Convert.Outcome.{Outcome, ok, malformed, ◌>>=◌, each}
use iscp_go.Convert.Codes.{ResultCode, Qos, code_name, qos_name}
use iscp_go.Convert.Messages.Parts
use iscp_go.Convert.Messages.Parts.{DataIdOrAlias, by_id, by_alias, by_alias_pointer}
use iscp_go.Convert.Messages.Parts.{info, alias, alias_pointer}
use iscp_go.Convert.Autogen
use iscp_go.Convert.Outside.{Outside}

unfoldable pub to_data_id_proto : Parts.DataId → Autogen.DataId
to_data_id_proto v = record { name = v.name; type_name = v.type_name }

unfoldable pub to_data_id_aliases_proto : List (ℕ × Parts.DataId) → List (ℕ × Autogen.DataId)
to_data_id_aliases_proto l = map (λ e. (e.0, to_data_id_proto e.1)) l

unfoldable pub to_data_ids_proto : List Parts.DataId → List Autogen.DataId
to_data_ids_proto l = map to_data_id_proto l

unfoldable pub to_data_point_proto : Parts.DataPoint → Autogen.DataPoint
to_data_point_proto v = record { elapsed_time = v.elapsed_time; payload = v.payload }

unfoldable pub to_data_points_proto : List Parts.DataPoint → List Autogen.DataPoint
to_data_points_proto l = map to_data_point_proto l

unfoldable pub to_data_filter_proto : Parts.DataFilter → Autogen.DataFilter
to_data_filter_proto v = record { name = v.name; type_name = v.type_name }

unfoldable pub to_downstream_filter_proto : Parts.DownstreamFilter → Autogen.DownstreamFilter
to_downstream_filter_proto v = record {
  source_node_id = v.source_node_id;
  data_filters = map to_data_filter_proto v.data_filters;
}

unfoldable pub to_downstream_filters_proto :
    List Parts.DownstreamFilter → List Autogen.DownstreamFilter
to_downstream_filters_proto l = map to_downstream_filter_proto l

-- The extension fields of a struct without fields: the functions for each of them are the same.
unfoldable pub to_empty_fields_proto : Option Parts.EmptyFields → Option Autogen.EmptyFields
to_empty_fields_proto none = none
to_empty_fields_proto (some e) = some (record {})

unfoldable pub to_upstream_open_request_extension_fields_proto :
    Option Parts.UpstreamOpenRequestExtensionFields
    → Option Autogen.UpstreamOpenRequestExtensionFields
to_upstream_open_request_extension_fields_proto none = none
to_upstream_open_request_extension_fields_proto (some e) = some (record { persist = e.persist })

unfoldable pub to_upstream_close_request_extension_fields_proto :
    Option Parts.UpstreamCloseRequestExtensionFields
    → Option Autogen.UpstreamCloseRequestExtensionFields
to_upstream_close_request_extension_fields_proto none = none
to_upstream_close_request_extension_fields_proto (some e) =
    some (record { close_session = e.close_session })

unfoldable pub to_upstream_metadata_extension_fields_proto :
    Option Parts.UpstreamMetadataExtensionFields → Option Autogen.UpstreamMetadataExtensionFields
to_upstream_metadata_extension_fields_proto none = none
to_upstream_metadata_extension_fields_proto (some e) = some (record { persist = e.persist })

-- A nil `StreamID` of the empty literal is no bytes.
unfoldable pub to_upstream_info_proto : Option Parts.UpstreamInfo → Option Autogen.UpstreamInfo
to_upstream_info_proto none = some (record { session_id = ""; source_node_id = ""; stream_id = [] })
to_upstream_info_proto (some v) = some (record {
  session_id = v.session_id;
  source_node_id = v.source_node_id;
  stream_id = v.stream_id;
})

unfoldable pub to_upstream_aliases_proto :
    List (ℕ × Option Parts.UpstreamInfo) → List (ℕ × Option Autogen.UpstreamInfo)
to_upstream_aliases_proto l = map (λ e. (e.0, to_upstream_info_proto e.1)) l

unfoldable pub to_upstream_or_alias_proto :
    Option Parts.UpstreamOrAlias → Outcome (Option Autogen.UpstreamOrAlias)
to_upstream_or_alias_proto (some (info v)) = ok (
    some (
      Autogen.upstream_info (record {
        session_id = v.session_id;
        source_node_id = v.source_node_id;
        stream_id = v.stream_id;
      })))
to_upstream_or_alias_proto (some (alias a)) = ok (some (Autogen.upstream_alias a))
to_upstream_or_alias_proto (some (alias_pointer a)) = malformed
to_upstream_or_alias_proto none = malformed

unfoldable pub to_data_id_or_alias_proto : Option DataIdOrAlias → Option Autogen.DataIdOrAlias
to_data_id_or_alias_proto none = none
to_data_id_or_alias_proto (some (by_id v)) = some (Autogen.data_id (to_data_id_proto v))
to_data_id_or_alias_proto (some (by_alias_pointer a)) = some (Autogen.data_id_alias a)
to_data_id_or_alias_proto (some (by_alias a)) = some (Autogen.data_id_alias a)

unfoldable pub to_data_point_group_proto :
    Option Parts.DataPointGroup → Outcome (Option Autogen.DataPointGroup)
to_data_point_group_proto none = ok (some (record { data_id_or_alias = none; data_points = [] }))
to_data_point_group_proto (some g) = ok (
    some (record {
      data_id_or_alias = to_data_id_or_alias_proto g.data_id_or_alias;
      data_points = to_data_points_proto g.data_points;
    }))

unfoldable pub to_data_point_groups_proto :
    List (Option Parts.DataPointGroup) → Outcome (List (Option Autogen.DataPointGroup))
to_data_point_groups_proto l = each to_data_point_group_proto l

unfoldable pub to_stream_chunk_proto :
    Option Parts.StreamChunk → Outcome (Option Autogen.StreamChunk)
to_stream_chunk_proto none = ok (some (record { sequence_number = 0; data_point_groups = [] }))
to_stream_chunk_proto (some c) = do
  groups ← to_data_point_groups_proto c.data_point_groups
  ok (some (record { sequence_number = c.sequence_number; data_point_groups = groups }))

-- The inner loop leaves nil references out.
unfoldable pub references_proto :
    List (Option Parts.DownstreamFilterReference) → List (Option Autogen.DownstreamFilterReference)
references_proto [] = []
references_proto (none ∷ vs) = references_proto vs
references_proto (some v ∷ vs) =
    List.◌∷◌
      (some (record {
        downstream_filter_index = v.downstream_filter_index;
        data_filter_index = v.data_filter_index;
      }))
      (references_proto vs)

unfoldable pub to_downstream_filter_references_proto :
    Option (List (List (Option Parts.DownstreamFilterReference)))
    → Option (List (Option Autogen.DownstreamFilterReferences))
to_downstream_filter_references_proto none = none
to_downstream_filter_references_proto (some groups) =
    some (map (λ group. some (record { references = references_proto group })) groups)

module _ {T P : Type 0} (o : Outside T P) where
  unfoldable pub to_result_code_proto : ResultCode → Outcome ℕ
  to_result_code_proto c = elim (code_name c) [ none ↦ malformed | some n ↦ ok (o.result_code n) ]

  unfoldable pub to_qos_proto : Qos → Outcome ℕ
  to_qos_proto q = elim (qos_name q) [ none ↦ malformed | some n ↦ ok (o.qos n) ]

  unfoldable pub to_intdash_extension_fields_proto :
      Option Parts.IntdashExtensionFields → Option Autogen.IntdashExtensionFields
  to_intdash_extension_fields_proto none = none
  to_intdash_extension_fields_proto (some e) =
      some (record { project_uuid = o.uuid_string e.project_uuid })

  unfoldable pub to_connect_request_extension_fields_proto :
      Option Parts.ConnectRequestExtensionFields → Option Autogen.ConnectRequestExtensionFields
  to_connect_request_extension_fields_proto none = none
  to_connect_request_extension_fields_proto (some e) = some (record {
    access_token = e.access_token;
    intdash = to_intdash_extension_fields_proto e.intdash;
  })

  unfoldable pub to_upstream_data_point_result_proto :
      Parts.UpstreamChunkResult → Outcome Autogen.UpstreamChunkResult
  to_upstream_data_point_result_proto v = do
    code ← to_result_code_proto v.result_code
    ok (record {
      sequence_number = v.sequence_number;
      result_code = code;
      result_string = v.result_string;
      extension_fields = to_empty_fields_proto v.extension_fields;
    })

  unfoldable pub to_upstream_data_point_results_proto :
      List Parts.UpstreamChunkResult → Outcome (List Autogen.UpstreamChunkResult)
  to_upstream_data_point_results_proto l = each to_upstream_data_point_result_proto l

  unfoldable pub to_downstream_data_point_result_proto :
      Parts.DownstreamChunkResult → Outcome Autogen.DownstreamChunkResult
  to_downstream_data_point_result_proto v = do
    code ← to_result_code_proto v.result_code
    ok (record {
      stream_id_of_upstream = v.stream_id_of_upstream;
      sequence_number_in_upstream = v.sequence_number_in_upstream;
      result_code = code;
      result_string = v.result_string;
      extension_fields = to_empty_fields_proto v.extension_fields;
    })

  unfoldable pub to_downstream_data_point_results_proto :
      List Parts.DownstreamChunkResult → Outcome (List Autogen.DownstreamChunkResult)
  to_downstream_data_point_results_proto l = each to_downstream_data_point_result_proto l

  -- `orUnixZero` of message/upstream.go
  unfoldable pub or_unix_zero : T → ℕ
  or_unix_zero t = if o.is_zero t then 0 else o.unix_nano t
