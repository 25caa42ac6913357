-- ===== src/Convert/ToProto/Data.antt =====
-- encoding/convert/wire_to_proto.go: chunks, acknowledgements and the messages with metadata.
use iscp_go.Convert.Outcome.{Outcome, ok, ◌>>=◌}
use iscp_go.Convert.Messages
use iscp_go.Convert.Autogen
use iscp_go.Convert.Outside.{Outside}
use iscp_go.Convert.ToProto.Parts.{to_data_id_aliases_proto, to_data_ids_proto}
use iscp_go.Convert.ToProto.Parts.{to_empty_fields_proto}
use iscp_go.Convert.ToProto.Parts.{to_upstream_metadata_extension_fields_proto}
use iscp_go.Convert.ToProto.Parts.{to_upstream_aliases_proto, to_upstream_or_alias_proto}
use iscp_go.Convert.ToProto.Parts.{to_stream_chunk_proto}
use iscp_go.Convert.ToProto.Parts.{to_downstream_filter_references_proto}
use iscp_go.Convert.ToProto.Parts.{to_result_code_proto, to_upstream_data_point_results_proto}
use iscp_go.Convert.ToProto.Parts.{to_downstream_data_point_results_proto}
use iscp_go.Convert.ToProto.Metadata.{to_sendable_metadata_proto, to_metadata_proto}

unfoldable pub upstream_chunk_proto : Messages.UpstreamChunk → Outcome Autogen.UpstreamChunk
upstream_chunk_proto m = do
  chunk ← to_stream_chunk_proto m.stream_chunk
  ok (record {
    stream_id_alias = m.stream_id_alias;
    stream_chunk = chunk;
    data_ids = to_data_ids_proto m.data_ids;
    extension_fields = to_empty_fields_proto m.extension_fields;
  })

unfoldable pub downstream_chunk_proto : Messages.DownstreamChunk → Outcome Autogen.DownstreamChunk
downstream_chunk_proto m = do
  chunk ← to_stream_chunk_proto m.stream_chunk
  upstream ← to_upstream_or_alias_proto m.upstream_or_alias
  ok (record {
    stream_id_alias = m.stream_id_alias;
    upstream_or_alias = upstream;
    stream_chunk = chunk;
    extension_fields = to_empty_fields_proto m.extension_fields;
    downstream_filter_references =
        to_downstream_filter_references_proto m.downstream_filter_references;
  })

module _ {T P : Type 0} (o : Outside T P) where
  unfoldable pub upstream_chunk_ack_proto :
      Messages.UpstreamChunkAck → Outcome Autogen.UpstreamChunkAck
  upstream_chunk_ack_proto m = do
    res ← to_upstream_data_point_results_proto o m.results
    ok (record {
      stream_id_alias = m.stream_id_alias;
      results = res;
      data_id_aliases = to_data_id_aliases_proto m.data_id_aliases;
      extension_fields = to_empty_fields_proto m.extension_fields;
    })

  unfoldable pub downstream_chunk_ack_proto :
      Messages.DownstreamChunkAck → Outcome Autogen.DownstreamChunkAck
  downstream_chunk_ack_proto m = do
    res ← to_downstream_data_point_results_proto o m.results
    ok (record {
      stream_id_alias = m.stream_id_alias;
      ack_id = m.ack_id;
      results = res;
      upstream_aliases = to_upstream_aliases_proto m.upstream_aliases;
      data_id_aliases = to_data_id_aliases_proto m.data_id_aliases;
      extension_fields = to_empty_fields_proto m.extension_fields;
    })

  unfoldable pub downstream_chunk_ack_complete_proto :
      Messages.DownstreamChunkAckComplete → Outcome Autogen.DownstreamChunkAckComplete
  downstream_chunk_ack_complete_proto m = do
    code ← to_result_code_proto o m.result_code
    ok (record {
      stream_id_alias = m.stream_id_alias;
      ack_id = m.ack_id;
      result_code = code;
      result_string = m.result_string;
      extension_fields = to_empty_fields_proto m.extension_fields;
    })

  unfoldable pub upstream_metadata_proto :
      Messages.UpstreamMetadata T → Outcome Autogen.UpstreamMetadata
  upstream_metadata_proto m = do
    meta ← to_sendable_metadata_proto o m.metadata
    ok (record {
      request_id = m.request_id;
      metadata = meta;
      extension_fields = to_upstream_metadata_extension_fields_proto m.extension_fields;
    })

  unfoldable pub upstream_metadata_ack_proto :
      Messages.UpstreamMetadataAck → Outcome Autogen.UpstreamMetadataAck
  upstream_metadata_ack_proto m = do
    code ← to_result_code_proto o m.result_code
    ok (record {
      request_id = m.request_id;
      result_code = code;
      result_string = m.result_string;
      extension_fields = to_empty_fields_proto m.extension_fields;
    })

  unfoldable pub downstream_metadata_proto :
      Messages.DownstreamMetadata T → Outcome Autogen.DownstreamMetadata
  downstream_metadata_proto m = do
    meta ← to_metadata_proto o m.metadata
    ok (record {
      request_id = m.request_id;
      stream_id_alias = m.stream_id_alias;
      source_node_id = m.source_node_id;
      metadata = meta;
      extension_fields = to_empty_fields_proto m.extension_fields;
    })

  unfoldable pub downstream_metadata_ack_proto :
      Messages.DownstreamMetadataAck → Outcome Autogen.DownstreamMetadataAck
  downstream_metadata_ack_proto m = do
    code ← to_result_code_proto o m.result_code
    ok (record {
      request_id = m.request_id;
      result_code = code;
      result_string = m.result_string;
      extension_fields = to_empty_fields_proto m.extension_fields;
    })
