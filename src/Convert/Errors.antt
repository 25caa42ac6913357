-- ===== src/Convert/Errors.antt =====
-- encoding/convert/wire_to_proto.go: which messages are refused.
pub mod Sendable
pub mod Accepting
use iscp_go.Prelude.{◌≡◌, refl, ap, Bool, true, false, ◌&&◌, Option, none, some, List, [], ◌∷◌}
use iscp_go.Convert.Outcome.{Outcome, ok, malformed, ◌>>=◌, each}
use iscp_go.Convert.Messages.{Message}
use iscp_go.Convert.Messages.Parts
use iscp_go.Convert.Messages.Parts.{Metadata, SendableMetadata, info, alias, alias_pointer}
use iscp_go.Convert.Autogen
use iscp_go.Convert.Outside.{Outside}
use iscp_go.Convert.Errors.Sendable.{sendable}
use iscp_go.Convert.ToProto.{to_downstream_chunk_proto, to_upstream_metadata_proto, fields}
use iscp_go.Convert.ToProto.{wire_to_proto}
use iscp_go.Convert.ToProto.Parts.{to_upstream_data_point_result_proto}
use iscp_go.Convert.ToProto.Parts.{to_upstream_data_point_results_proto}
use iscp_go.Convert.ToProto.Parts.{to_downstream_data_point_result_proto}
use iscp_go.Convert.ToProto.Parts.{to_downstream_data_point_results_proto}
use iscp_go.Convert.ToProto.Control.{connect_response_proto, disconnect_proto}
use iscp_go.Convert.ToProto.Control.{upstream_call_ack_proto}
use iscp_go.Convert.ToProto.Upstreams.{upstream_open_request_proto}
use iscp_go.Convert.ToProto.Upstreams.{upstream_open_response_proto}
use iscp_go.Convert.ToProto.Upstreams.{upstream_resume_response_proto}
use iscp_go.Convert.ToProto.Upstreams.{upstream_close_response_proto}
use iscp_go.Convert.ToProto.Downstreams.{downstream_open_request_proto}
use iscp_go.Convert.ToProto.Downstreams.{downstream_open_response_proto}
use iscp_go.Convert.ToProto.Downstreams.{downstream_resume_response_proto}
use iscp_go.Convert.ToProto.Downstreams.{downstream_close_response_proto}
use iscp_go.Convert.ToProto.Data.{upstream_chunk_proto, downstream_chunk_proto}
use iscp_go.Convert.ToProto.Data.{upstream_chunk_ack_proto, downstream_chunk_ack_proto}
use iscp_go.Convert.ToProto.Data.{downstream_chunk_ack_complete_proto, upstream_metadata_proto}
use iscp_go.Convert.ToProto.Data.{upstream_metadata_ack_proto, downstream_metadata_proto}
use iscp_go.Convert.ToProto.Data.{downstream_metadata_ack_proto}
use iscp_go.Convert.Errors.Accepting.{Decides, accepts-then, accepts-next, each_accepts}
use iscp_go.Convert.Errors.Accepting.{chunk_accepts, upstream_accepts, code_accepts}
use iscp_go.Convert.Errors.Accepting.{qos_accepts, sendable_accepts, metadata_accepts, written}
use iscp_go.Convert.Errors.Accepting.{refused}

module _ {T P : Type 0} (o : Outside T P) where
  fields_accepts : (m : Message T) → Decides (sendable m) (fields o m)
  unfolding fields sendable upstream_chunk_proto to_downstream_chunk_proto
      to_upstream_metadata_proto to_upstream_data_point_results_proto
      to_downstream_data_point_results_proto to_upstream_data_point_result_proto
      to_downstream_data_point_result_proto connect_response_proto disconnect_proto
      downstream_chunk_proto downstream_chunk_ack_proto downstream_chunk_ack_complete_proto
      downstream_close_response_proto downstream_metadata_proto downstream_metadata_ack_proto
      downstream_open_request_proto downstream_open_response_proto downstream_resume_response_proto
      upstream_call_ack_proto upstream_chunk_ack_proto upstream_close_response_proto
      upstream_metadata_proto upstream_metadata_ack_proto upstream_open_request_proto
      upstream_open_response_proto upstream_resume_response_proto
  fields_accepts (Message.connect_request m) = written _
  fields_accepts (Message.connect_response m) =
      accepts-then _ (accepts-then _ (code_accepts o m.result_code))
  fields_accepts (Message.disconnect m) =
      accepts-then _ (accepts-then _ (code_accepts o m.result_code))
  fields_accepts (Message.upstream_open_request m) =
      accepts-then _ (accepts-then _ (qos_accepts o m.qos))
  fields_accepts (Message.upstream_open_response m) =
      accepts-then _ (accepts-then _ (code_accepts o m.result_code))
  fields_accepts (Message.upstream_resume_request m) = written _
  fields_accepts (Message.upstream_resume_response m) =
      accepts-then _ (accepts-then _ (code_accepts o m.result_code))
  fields_accepts (Message.upstream_close_request m) = written _
  fields_accepts (Message.upstream_close_response m) =
      accepts-then _ (accepts-then _ (code_accepts o m.result_code))
  fields_accepts (Message.downstream_open_request m) =
      accepts-then _ (accepts-then _ (qos_accepts o m.qos))
  fields_accepts (Message.downstream_open_response m) =
      accepts-then _ (accepts-then _ (code_accepts o m.result_code))
  fields_accepts (Message.downstream_resume_request m) = written _
  fields_accepts (Message.downstream_resume_response m) =
      accepts-then _ (accepts-then _ (code_accepts o m.result_code))
  fields_accepts (Message.downstream_close_request m) = written _
  fields_accepts (Message.downstream_close_response m) =
      accepts-then _ (accepts-then _ (code_accepts o m.result_code))
  fields_accepts (Message.upstream_call m) = written _
  fields_accepts (Message.upstream_call_ack m) =
      accepts-then _ (accepts-then _ (code_accepts o m.result_code))
  fields_accepts (Message.downstream_call m) = written _
  fields_accepts (Message.ping m) = written _
  fields_accepts (Message.pong m) = written _
  fields_accepts (Message.upstream_chunk m) =
      accepts-then _ (accepts-then _ (chunk_accepts m.stream_chunk))
  fields_accepts (Message.upstream_chunk_ack m) = accepts-then _ (
      accepts-then _
        (each_accepts _ _ (λ v. accepts-then _ (code_accepts o v.result_code)) m.results))
  fields_accepts (Message.downstream_chunk none) = written _
  fields_accepts (Message.downstream_chunk (some m)) = accepts-then _ (
      accepts-next _ (chunk_accepts m.stream_chunk)
        (λ p. accepts-then _ (upstream_accepts m.upstream_or_alias)))
  fields_accepts (Message.downstream_chunk_ack m) = accepts-then _ (
      accepts-then _
        (each_accepts _ _ (λ v. accepts-then _ (code_accepts o v.result_code)) m.results))
  fields_accepts (Message.downstream_chunk_ack_complete m) =
      accepts-then _ (accepts-then _ (code_accepts o m.result_code))
  fields_accepts (Message.upstream_metadata none) = written _
  fields_accepts (Message.upstream_metadata (some m)) =
      accepts-then _ (accepts-then _ (sendable_accepts o m.metadata))
  fields_accepts (Message.upstream_metadata_ack m) =
      accepts-then _ (accepts-then _ (code_accepts o m.result_code))
  fields_accepts (Message.downstream_metadata m) =
      accepts-then _ (accepts-then _ (metadata_accepts o m.metadata))
  fields_accepts (Message.downstream_metadata_ack m) =
      accepts-then _ (accepts-then _ (code_accepts o m.result_code))
  fields_accepts Message.unknown = refused

  -- For a message in which the pointers that the conversion follows without a test (entries of lists and maps,
  -- and the structs within a struct) are not nil, writing gives a value or the error of a malformed
  -- message, and nothing else. It gives the error exactly when the message, its result code, its quality
  -- of service, the code of one of its results, or its metadata with their quality of service are none
  -- that the conversion has a case for, or when a downstream chunk that is not nil has no upstream, or a
  -- pointer to an alias for one.
  pub wire_to_proto-Decides : (m : Message T) → Decides (sendable m) (wire_to_proto o m)
  unfolding wire_to_proto
  wire_to_proto-Decides m = accepts-then o.make (fields_accepts m)
