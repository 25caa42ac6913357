-- ===== src/Convert/ToWire/Data.antt =====
-- encoding/convert/proto_to_wire.go: chunks, acknowledgements and the messages with metadata.
use iscp_go.Convert.Outcome.{Outcome, ok, ◌>>=◌}
use iscp_go.Convert.Messages
use iscp_go.Convert.Autogen
use iscp_go.Convert.Outside.{Outside}
use iscp_go.Convert.ToWire.Parts.{to_data_ids, to_data_id_aliases, to_empty_fields}
use iscp_go.Convert.ToWire.Parts.{to_upstream_metadata_extension_fields, to_stream_chunk}
use iscp_go.Convert.ToWire.Parts.{to_downstream_filter_references_wire, to_result_code}
use iscp_go.Convert.ToWire.Parts.{to_upstream_data_point_results}
use iscp_go.Convert.ToWire.Parts.{to_downstream_data_point_results, to_upstream_aliases}
use iscp_go.Convert.ToWire.Parts.{to_upstream_or_alias}
use iscp_go.Convert.ToWire.Metadata.{to_metadata_upstream, to_downstream_metadata}

unfoldable pub upstream_chunk_wire : Autogen.UpstreamChunk → Outcome Messages.UpstreamChunk
upstream_chunk_wire m = do
  chunk ← to_stream_chunk m.stream_chunk
  ok (record {
    stream_id_alias = m.stream_id_alias;
    stream_chunk = chunk;
    data_ids = to_data_ids m.data_ids;
    extension_fields = to_empty_fields m.extension_fields;
  })

module _ {T P : Type 0} (o : Outside T P) where
  unfoldable pub upstream_chunk_ack_wire :
      Autogen.UpstreamChunkAck → Outcome Messages.UpstreamChunkAck
  upstream_chunk_ack_wire m = do
    res ← to_upstream_data_point_results o m.results
    ok (record {
      stream_id_alias = m.stream_id_alias;
      results = res;
      data_id_aliases = to_data_id_aliases m.data_id_aliases;
      extension_fields = to_empty_fields m.extension_fields;
    })

  unfoldable pub downstream_chunk_wire : Autogen.DownstreamChunk → Outcome Messages.DownstreamChunk
  downstream_chunk_wire m = do
    upstream ← to_upstream_or_alias o m.upstream_or_alias
    chunk ← to_stream_chunk m.stream_chunk
    ok (record {
      stream_id_alias = m.stream_id_alias;
      upstream_or_alias = upstream;
      stream_chunk = chunk;
      extension_fields = to_empty_fields m.extension_fields;
      downstream_filter_references =
          to_downstream_filter_references_wire m.downstream_filter_references;
    })

  unfoldable pub downstream_chunk_ack_wire :
      Autogen.DownstreamChunkAck → Outcome Messages.DownstreamChunkAck
  downstream_chunk_ack_wire m = do
    res ← to_downstream_data_point_results o m.results
    aliases ← to_upstream_aliases o m.upstream_aliases
    ok (record {
      stream_id_alias = m.stream_id_alias;
      ack_id = m.ack_id;
      results = res;
      upstream_aliases = aliases;
      data_id_aliases = to_data_id_aliases m.data_id_aliases;
      extension_fields = to_empty_fields m.extension_fields;
    })

  unfoldable pub downstream_chunk_ack_complete_wire :
      Autogen.DownstreamChunkAckComplete → Outcome Messages.DownstreamChunkAckComplete
  downstream_chunk_ack_complete_wire m = do
    code ← to_result_code o m.result_code
    ok (record {
      stream_id_alias = m.stream_id_alias;
      ack_id = m.ack_id;
      result_code = code;
      result_string = m.result_string;
      extension_fields = to_empty_fields m.extension_fields;
    })

  unfoldable pub upstream_metadata_wire :
      Autogen.UpstreamMetadata → Outcome (Messages.UpstreamMetadata T)
  upstream_metadata_wire m = do
    meta ← to_metadata_upstream o m.metadata
    ok (record {
      request_id = m.request_id;
      metadata = meta;
      extension_fields = to_upstream_metadata_extension_fields m.extension_fields;
    })

  unfoldable pub upstream_metadata_ack_wire :
      Autogen.UpstreamMetadataAck → Outcome Messages.UpstreamMetadataAck
  upstream_metadata_ack_wire m = do
    code ← to_result_code o m.result_code
    ok (record {
      request_id = m.request_id;
      result_code = code;
      result_string = m.result_string;
      extension_fields = to_empty_fields m.extension_fields;
    })

  unfoldable pub downstream_metadata_wire :
      Autogen.DownstreamMetadata → Outcome (Messages.DownstreamMetadata T)
  downstream_metadata_wire m = do
    meta ← to_downstream_metadata o m.metadata
    ok (record {
      request_id = m.request_id;
      stream_id_alias = m.stream_id_alias;
      source_node_id = m.source_node_id;
      metadata = meta;
      extension_fields = to_empty_fields m.extension_fields;
    })

  unfoldable pub downstream_metadata_ack_wire :
      Autogen.DownstreamMetadataAck → Outcome Messages.DownstreamMetadataAck
  downstream_metadata_ack_wire m = do
    code ← to_result_code o m.result_code
    ok (record {
      request_id = m.request_id;
      result_code = code;
      result_string = m.result_string;
      extension_fields = to_empty_fields m.extension_fields;
    })
