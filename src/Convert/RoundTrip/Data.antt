-- ===== src/Convert/RoundTrip/Data.antt =====
-- Messages for chunks, acknowledgements and the messages with metadata: written and read back.
use iscp_go.Prelude.{◌≡◌, some}
use iscp_go.Convert.Outcome.{ok, ◌>>=◌}
use iscp_go.Convert.Messages
use iscp_go.Convert.Messages.{Message}
use iscp_go.Convert.Outside.{Outside, IsLawful}
use iscp_go.Convert.RoundTrip.Conditions.{CanTravel}
use iscp_go.Convert.RoundTrip.Parts.{ids_trip, aliases_trip, empty_trip, metadata_fields_trip}
use iscp_go.Convert.RoundTrip.Parts.{filter_references_trip}
use iscp_go.Convert.RoundTrip.Checked.{chunk_trip, code_trip, upstream_results_trip}
use iscp_go.Convert.RoundTrip.Checked.{downstream_results_trip, upstream_aliases_trip}
use iscp_go.Convert.RoundTrip.Checked.{upstream_or_alias_trip}
use iscp_go.Convert.RoundTrip.Metadata.{sendable_trip, metadata_trip}
use iscp_go.Convert.ToProto.Data.{upstream_chunk_proto, downstream_chunk_proto}
use iscp_go.Convert.ToProto.Data.{upstream_chunk_ack_proto, downstream_chunk_ack_proto}
use iscp_go.Convert.ToProto.Data.{downstream_chunk_ack_complete_proto, upstream_metadata_proto}
use iscp_go.Convert.ToProto.Data.{upstream_metadata_ack_proto, downstream_metadata_proto}
use iscp_go.Convert.ToProto.Data.{downstream_metadata_ack_proto}
use iscp_go.Convert.ToWire.Data.{upstream_chunk_wire, upstream_chunk_ack_wire}
use iscp_go.Convert.ToWire.Data.{downstream_chunk_wire, downstream_chunk_ack_wire}
use iscp_go.Convert.ToWire.Data.{downstream_chunk_ack_complete_wire, upstream_metadata_wire}
use iscp_go.Convert.ToWire.Data.{upstream_metadata_ack_wire, downstream_metadata_wire}
use iscp_go.Convert.ToWire.Data.{downstream_metadata_ack_wire}

module _ {T P : Type 0} {o : Outside T P} (l : IsLawful o) where
  pub upstream_chunk_trip :
      (m : Messages.UpstreamChunk)
      → CanTravel o (Message.upstream_chunk m)
      → (upstream_chunk_proto m >>= upstream_chunk_wire) ≡ ok m
  unfolding upstream_chunk_proto upstream_chunk_wire
  upstream_chunk_trip m h =
      let (p, w0, r0) = chunk_trip m.stream_chunk h in
      cc (w0, r0, ids_trip m.data_ids, empty_trip m.extension_fields)

  pub upstream_chunk_ack_trip :
      (m : Messages.UpstreamChunkAck)
      → CanTravel o (Message.upstream_chunk_ack m)
      → (upstream_chunk_ack_proto o m >>= upstream_chunk_ack_wire o) ≡ ok m
  unfolding upstream_chunk_ack_proto upstream_chunk_ack_wire
  upstream_chunk_ack_trip m h =
      let (p, w0, r0) = upstream_results_trip l m.results h in
      cc (w0, r0, aliases_trip m.data_id_aliases, empty_trip m.extension_fields)

  pub downstream_chunk_trip :
      (m : Messages.DownstreamChunk)
      → CanTravel o (Message.downstream_chunk (some m))
      → (downstream_chunk_proto m >>= downstream_chunk_wire o) ≡ ok m
  unfolding downstream_chunk_proto downstream_chunk_wire
  downstream_chunk_trip m h =
      let (p, w0, r0) = upstream_or_alias_trip l m.upstream_or_alias h.0 in
      let (q, w1, r1) = chunk_trip m.stream_chunk h.1 in
      cc (
        w0,
        r0,
        w1,
        r1,
        empty_trip m.extension_fields,
        filter_references_trip m.downstream_filter_references h.2,
      )

  pub downstream_chunk_ack_trip :
      (m : Messages.DownstreamChunkAck)
      → CanTravel o (Message.downstream_chunk_ack m)
      → (downstream_chunk_ack_proto o m >>= downstream_chunk_ack_wire o) ≡ ok m
  unfolding downstream_chunk_ack_proto downstream_chunk_ack_wire
  downstream_chunk_ack_trip m h =
      let (p, w0, r0) = downstream_results_trip l m.results h.0 in
      cc (
        w0,
        r0,
        upstream_aliases_trip l m.upstream_aliases h.1,
        aliases_trip m.data_id_aliases,
        empty_trip m.extension_fields,
      )

  pub downstream_chunk_ack_complete_trip :
      (m : Messages.DownstreamChunkAckComplete)
      → CanTravel o (Message.downstream_chunk_ack_complete m)
      → (downstream_chunk_ack_complete_proto o m >>= downstream_chunk_ack_complete_wire o) ≡ ok m
  unfolding downstream_chunk_ack_complete_proto downstream_chunk_ack_complete_wire
  downstream_chunk_ack_complete_trip m h =
      let (p, w0, r0) = code_trip l m.result_code h in cc (w0, r0, empty_trip m.extension_fields)

  pub upstream_metadata_trip :
      (m : Messages.UpstreamMetadata T)
      → CanTravel o (Message.upstream_metadata (some m))
      → (upstream_metadata_proto o m >>= upstream_metadata_wire o) ≡ ok m
  unfolding upstream_metadata_proto upstream_metadata_wire
  upstream_metadata_trip m h =
      let (p, w0, r0) = sendable_trip l m.metadata h in
      cc (w0, r0, metadata_fields_trip m.extension_fields)

  pub upstream_metadata_ack_trip :
      (m : Messages.UpstreamMetadataAck)
      → CanTravel o (Message.upstream_metadata_ack m)
      → (upstream_metadata_ack_proto o m >>= upstream_metadata_ack_wire o) ≡ ok m
  unfolding upstream_metadata_ack_proto upstream_metadata_ack_wire
  upstream_metadata_ack_trip m h =
      let (p, w0, r0) = code_trip l m.result_code h in cc (w0, r0, empty_trip m.extension_fields)

  pub downstream_metadata_trip :
      (m : Messages.DownstreamMetadata T)
      → CanTravel o (Message.downstream_metadata m)
      → (downstream_metadata_proto o m >>= downstream_metadata_wire o) ≡ ok m
  unfolding downstream_metadata_proto downstream_metadata_wire
  downstream_metadata_trip m h =
      let (p, w0, r0) = metadata_trip l m.metadata h in cc (w0, r0, empty_trip m.extension_fields)

  pub downstream_metadata_ack_trip :
      (m : Messages.DownstreamMetadataAck)
      → CanTravel o (Message.downstream_metadata_ack m)
      → (downstream_metadata_ack_proto o m >>= downstream_metadata_ack_wire o) ≡ ok m
  unfolding downstream_metadata_ack_proto downstream_metadata_ack_wire
  downstream_metadata_ack_trip m h =
      let (p, w0, r0) = code_trip l m.result_code h in cc (w0, r0, empty_trip m.extension_fields)
