-- ===== src/Convert/RoundTrip/Conditions.antt =====
-- What the protobuf form can carry of each message: conditions on the fields that are changed on the
-- way, and none on the others.
use iscp_go.Convert.Messages
use iscp_go.Convert.Messages.{Message}
use iscp_go.Convert.Outside.{Outside}
use iscp_go.Convert.RoundTrip.Carried.{Each, OrNil, Present, CarriedCode, CarriedQos}
use iscp_go.Convert.RoundTrip.Carried.{WholeSeconds, WholeMilliseconds, IsUuid}
use iscp_go.Convert.RoundTrip.Carried.{CarriedConnectFields, CarriedChunk}
use iscp_go.Convert.RoundTrip.Carried.{CarriedUpstreamResult, CarriedDownstreamResult}
use iscp_go.Convert.RoundTrip.Carried.{CarriedAlias, CarriedUpstream, CarriedReferences, IsUtc}
use iscp_go.Convert.RoundTrip.Carried.{CarriedSendable, CarriedMetadata}

module _ {T P : Type 0} (o : Outside T P) where
  abbrev pub CarriedDownstreamChunk : Messages.DownstreamChunk → Type 0
  CarriedDownstreamChunk m =
      Present CarriedUpstream m.upstream_or_alias
      × Present CarriedChunk m.stream_chunk
      × OrNil CarriedReferences m.downstream_filter_references

  abbrev pub CarriedUpstreamMetadata : Messages.UpstreamMetadata T → Type 0
  CarriedUpstreamMetadata m = CarriedSendable o m.metadata

  -- `unknown` is not carried, and neither are the two nil pointers that the code tests for.
  abbrev pub CanTravel : Message T → Type 0
  CanTravel (Message.connect_request m) =
      WholeSeconds m.ping_interval
      × WholeSeconds m.ping_timeout
      × OrNil CarriedConnectFields m.extension_fields
  CanTravel (Message.connect_response m) = CarriedCode m.result_code
  CanTravel (Message.disconnect m) = CarriedCode m.result_code
  CanTravel (Message.upstream_open_request m) =
      WholeMilliseconds m.ack_interval × WholeSeconds m.expiry_interval × CarriedQos m.qos
  CanTravel (Message.upstream_open_response m) =
      IsUuid m.assigned_stream_id × IsUtc o m.server_time × CarriedCode m.result_code
  CanTravel (Message.upstream_resume_request m) = IsUuid m.stream_id
  CanTravel (Message.upstream_resume_response m) = CarriedCode m.result_code
  CanTravel (Message.upstream_close_request m) = IsUuid m.stream_id
  CanTravel (Message.upstream_close_response m) = CarriedCode m.result_code
  CanTravel (Message.downstream_open_request m) = WholeSeconds m.expiry_interval × CarriedQos m.qos
  CanTravel (Message.downstream_open_response m) =
      IsUuid m.assigned_stream_id × IsUtc o m.server_time × CarriedCode m.result_code
  CanTravel (Message.downstream_resume_request m) = IsUuid m.stream_id
  CanTravel (Message.downstream_resume_response m) = CarriedCode m.result_code
  CanTravel (Message.downstream_close_request m) = IsUuid m.stream_id
  CanTravel (Message.downstream_close_response m) = CarriedCode m.result_code
  CanTravel (Message.upstream_call m) = Unit {0}
  CanTravel (Message.upstream_call_ack m) = CarriedCode m.result_code
  CanTravel (Message.downstream_call m) = Unit {0}
  CanTravel (Message.ping m) = Unit {0}
  CanTravel (Message.pong m) = Unit {0}
  CanTravel (Message.upstream_chunk m) = Present CarriedChunk m.stream_chunk
  CanTravel (Message.upstream_chunk_ack m) = Each CarriedUpstreamResult m.results
  CanTravel (Message.downstream_chunk m) = Present CarriedDownstreamChunk m
  CanTravel (Message.downstream_chunk_ack m) =
      Each CarriedDownstreamResult m.results × Each CarriedAlias m.upstream_aliases
  CanTravel (Message.downstream_chunk_ack_complete m) = CarriedCode m.result_code
  CanTravel (Message.upstream_metadata m) = Present CarriedUpstreamMetadata m
  CanTravel (Message.upstream_metadata_ack m) = CarriedCode m.result_code
  CanTravel (Message.downstream_metadata m) = CarriedMetadata o m.metadata
  CanTravel (Message.downstream_metadata_ack m) = CarriedCode m.result_code
  CanTravel Message.unknown = ⊥
