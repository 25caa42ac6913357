-- ===== src/Convert/ToProto.antt =====
-- encoding/convert/wire_to_proto.go: the switch on the type of the message.
pub mod Parts
pub mod Metadata
pub mod Control
pub mod Upstreams
pub mod Downstreams
pub mod Data
use iscp_go.Prelude.{Option, none, some}
use iscp_go.Convert.Outcome.{Outcome, ok, malformed, ◌>>=◌}
use iscp_go.Convert.Messages
use iscp_go.Convert.Messages.{Message}
use iscp_go.Convert.Autogen
use iscp_go.Convert.Outside.{Outside}
use iscp_go.Convert.ToProto.Control.*
use iscp_go.Convert.ToProto.Upstreams.*
use iscp_go.Convert.ToProto.Downstreams.*
use iscp_go.Convert.ToProto.Data.*

module _ {T P : Type 0} (o : Outside T P) where
  -- `toDownstreamChunkProto`, nil included
  unfoldable pub to_downstream_chunk_proto :
      Option Messages.DownstreamChunk → Outcome Autogen.DownstreamChunk
  to_downstream_chunk_proto none = ok (record {
    stream_id_alias = 0;
    upstream_or_alias = none;
    stream_chunk = none;
    extension_fields = none;
    downstream_filter_references = none;
  })
  to_downstream_chunk_proto (some m) = downstream_chunk_proto m

  -- `toUpstreamMetadataProto`, nil included
  unfoldable pub to_upstream_metadata_proto :
      Option (Messages.UpstreamMetadata T) → Outcome Autogen.UpstreamMetadata
  to_upstream_metadata_proto none =
      ok (record { request_id = 0; metadata = none; extension_fields = none })
  to_upstream_metadata_proto (some m) = upstream_metadata_proto o m

  -- The fields of the literal that the case builds.
  unfoldable pub fields : Message T → Outcome Autogen.Message
  fields (Message.connect_request m) =
      ok (Autogen.Message.connect_request (connect_request_proto o m))
  fields (Message.connect_response m) = do
    p ← connect_response_proto o m
    ok (Autogen.Message.connect_response p)
  fields (Message.disconnect m) = do p ← disconnect_proto o m; ok (Autogen.Message.disconnect p)
  fields (Message.upstream_open_request m) = do
    p ← upstream_open_request_proto o m
    ok (Autogen.Message.upstream_open_request p)
  fields (Message.upstream_open_response m) = do
    p ← upstream_open_response_proto o m
    ok (Autogen.Message.upstream_open_response p)
  fields (Message.upstream_resume_request m) =
      ok (Autogen.Message.upstream_resume_request (upstream_resume_request_proto m))
  fields (Message.upstream_resume_response m) = do
    p ← upstream_resume_response_proto o m
    ok (Autogen.Message.upstream_resume_response p)
  fields (Message.upstream_close_request m) =
      ok (Autogen.Message.upstream_close_request (upstream_close_request_proto m))
  fields (Message.upstream_close_response m) = do
    p ← upstream_close_response_proto o m
    ok (Autogen.Message.upstream_close_response p)
  fields (Message.downstream_open_request m) = do
    p ← downstream_open_request_proto o m
    ok (Autogen.Message.downstream_open_request p)
  fields (Message.downstream_open_response m) = do
    p ← downstream_open_response_proto o m
    ok (Autogen.Message.downstream_open_response p)
  fields (Message.downstream_resume_request m) =
      ok (Autogen.Message.downstream_resume_request (downstream_resume_request_proto m))
  fields (Message.downstream_resume_response m) = do
    p ← downstream_resume_response_proto o m
    ok (Autogen.Message.downstream_resume_response p)
  fields (Message.downstream_close_request m) =
      ok (Autogen.Message.downstream_close_request (downstream_close_request_proto m))
  fields (Message.downstream_close_response m) = do
    p ← downstream_close_response_proto o m
    ok (Autogen.Message.downstream_close_response p)
  fields (Message.upstream_call m) = ok (Autogen.Message.upstream_call (upstream_call_proto m))
  fields (Message.upstream_call_ack m) = do
    p ← upstream_call_ack_proto o m
    ok (Autogen.Message.upstream_call_ack p)
  fields (Message.downstream_call m) =
      ok (Autogen.Message.downstream_call (downstream_call_proto m))
  fields (Message.ping m) = ok (Autogen.Message.ping (ping_proto m))
  fields (Message.pong m) = ok (Autogen.Message.pong (pong_proto m))
  fields (Message.upstream_chunk m) = do
    p ← upstream_chunk_proto m
    ok (Autogen.Message.upstream_chunk p)
  fields (Message.upstream_chunk_ack m) = do
    p ← upstream_chunk_ack_proto o m
    ok (Autogen.Message.upstream_chunk_ack p)
  fields (Message.downstream_chunk m) = do
    p ← to_downstream_chunk_proto m
    ok (Autogen.Message.downstream_chunk p)
  fields (Message.downstream_chunk_ack m) = do
    p ← downstream_chunk_ack_proto o m
    ok (Autogen.Message.downstream_chunk_ack p)
  fields (Message.downstream_chunk_ack_complete m) = do
    p ← downstream_chunk_ack_complete_proto o m
    ok (Autogen.Message.downstream_chunk_ack_complete p)
  fields (Message.upstream_metadata m) = do
    p ← to_upstream_metadata_proto m
    ok (Autogen.Message.upstream_metadata p)
  fields (Message.upstream_metadata_ack m) = do
    p ← upstream_metadata_ack_proto o m
    ok (Autogen.Message.upstream_metadata_ack p)
  fields (Message.downstream_metadata m) = do
    p ← downstream_metadata_proto o m
    ok (Autogen.Message.downstream_metadata p)
  fields (Message.downstream_metadata_ack m) = do
    p ← downstream_metadata_ack_proto o m
    ok (Autogen.Message.downstream_metadata_ack p)
  fields Message.unknown = malformed

  unfoldable pub wire_to_proto : Message T → Outcome P
  wire_to_proto m = do f ← fields m; ok (o.make f)
