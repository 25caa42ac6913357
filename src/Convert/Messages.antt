-- ===== src/Convert/Messages.antt =====
-- The messages of the package message, each with the fields of its struct. A pointer is an `Option` where the
-- conversion tests it; the others are taken not to be nil.
pub mod Parts
use iscp_go.Prelude.{ℕ, String, Bool, Option, List}
use iscp_go.Convert.Codes.{ResultCode, Qos}
use iscp_go.Convert.Messages.Parts.{DataId, DownstreamFilter, StreamChunk, EmptyFields}
use iscp_go.Convert.Messages.Parts.{UpstreamChunkResult, DownstreamChunkResult, UpstreamInfo}
use iscp_go.Convert.Messages.Parts.{UpstreamOrAlias, DownstreamFilterReference}
use iscp_go.Convert.Messages.Parts.{ConnectRequestExtensionFields}
use iscp_go.Convert.Messages.Parts.{UpstreamOpenRequestExtensionFields}
use iscp_go.Convert.Messages.Parts.{UpstreamCloseRequestExtensionFields}
use iscp_go.Convert.Messages.Parts.{UpstreamMetadataExtensionFields, Metadata}
use iscp_go.Convert.Messages.Parts.{SendableMetadata}

pub record ConnectRequest : Type 0 where
  pub request_id : ℕ
  pub protocol_version : String
  pub node_id : String
  pub ping_interval : ℕ
  pub ping_timeout : ℕ
  pub extension_fields : Option ConnectRequestExtensionFields

pub record ConnectResponse : Type 0 where
  pub request_id : ℕ
  pub protocol_version : String
  pub result_code : ResultCode
  pub result_string : String
  pub extension_fields : Option EmptyFields

pub record Disconnect : Type 0 where
  pub result_code : ResultCode
  pub result_string : String
  pub extension_fields : Option EmptyFields

pub record UpstreamOpenRequest : Type 0 where
  pub request_id : ℕ
  pub session_id : String
  pub ack_interval : ℕ
  pub expiry_interval : ℕ
  pub data_ids : List DataId
  pub qos : Qos
  pub extension_fields : Option UpstreamOpenRequestExtensionFields

pub record UpstreamOpenResponse (T : Type 0) : Type 0 where
  pub request_id : ℕ
  pub assigned_stream_id : List ℕ
  pub assigned_stream_id_alias : ℕ
  pub data_id_aliases : List (ℕ × DataId)
  pub server_time : T
  pub result_code : ResultCode
  pub result_string : String
  pub extension_fields : Option EmptyFields
  pub resume_token : String

pub record UpstreamResumeRequest : Type 0 where
  pub request_id : ℕ
  pub stream_id : List ℕ
  pub extension_fields : Option EmptyFields
  pub resume_token : String

pub record UpstreamResumeResponse : Type 0 where
  pub request_id : ℕ
  pub assigned_stream_id_alias : ℕ
  pub result_code : ResultCode
  pub result_string : String
  pub extension_fields : Option EmptyFields
  pub resume_token : String

pub record UpstreamCloseRequest : Type 0 where
  pub request_id : ℕ
  pub stream_id : List ℕ
  pub total_data_points : ℕ
  pub final_sequence_number : ℕ
  pub extension_fields : Option UpstreamCloseRequestExtensionFields

pub record UpstreamCloseResponse : Type 0 where
  pub request_id : ℕ
  pub result_code : ResultCode
  pub result_string : String
  pub extension_fields : Option EmptyFields

pub record DownstreamOpenRequest : Type 0 where
  pub request_id : ℕ
  pub desired_stream_id_alias : ℕ
  pub downstream_filters : List DownstreamFilter
  pub expiry_interval : ℕ
  pub data_id_aliases : List (ℕ × DataId)
  pub qos : Qos
  pub extension_fields : Option EmptyFields
  pub omit_empty_chunk : Bool

pub record DownstreamOpenResponse (T : Type 0) : Type 0 where
  pub request_id : ℕ
  pub assigned_stream_id : List ℕ
  pub server_time : T
  pub result_code : ResultCode
  pub result_string : String
  pub extension_fields : Option EmptyFields
  pub resume_token : String

pub record DownstreamResumeRequest : Type 0 where
  pub request_id : ℕ
  pub stream_id : List ℕ
  pub desired_stream_id_alias : ℕ
  pub extension_fields : Option EmptyFields
  pub resume_token : String

pub record DownstreamResumeResponse : Type 0 where
  pub request_id : ℕ
  pub result_code : ResultCode
  pub result_string : String
  pub extension_fields : Option EmptyFields
  pub resume_token : String

pub record DownstreamCloseRequest : Type 0 where
  pub request_id : ℕ
  pub stream_id : List ℕ
  pub extension_fields : Option EmptyFields

pub record DownstreamCloseResponse : Type 0 where
  pub request_id : ℕ
  pub result_code : ResultCode
  pub result_string : String
  pub extension_fields : Option EmptyFields

pub record UpstreamCall : Type 0 where
  pub call_id : String
  pub request_call_id : String
  pub destination_node_id : String
  pub name : String
  pub type_name : String
  pub payload : List ℕ
  pub extension_fields : Option EmptyFields

pub record UpstreamCallAck : Type 0 where
  pub call_id : String
  pub result_code : ResultCode
  pub result_string : String
  pub extension_fields : Option EmptyFields

pub record DownstreamCall : Type 0 where
  pub call_id : String
  pub request_call_id : String
  pub source_node_id : String
  pub name : String
  pub type_name : String
  pub payload : List ℕ
  pub extension_fields : Option EmptyFields

pub record Ping : Type 0 where
  pub request_id : ℕ
  pub extension_fields : Option EmptyFields

pub record Pong : Type 0 where
  pub request_id : ℕ
  pub extension_fields : Option EmptyFields

pub record UpstreamChunk : Type 0 where
  pub stream_id_alias : ℕ
  pub stream_chunk : Option StreamChunk
  pub data_ids : List DataId
  pub extension_fields : Option EmptyFields

pub record UpstreamChunkAck : Type 0 where
  pub stream_id_alias : ℕ
  pub results : List UpstreamChunkResult
  pub data_id_aliases : List (ℕ × DataId)
  pub extension_fields : Option EmptyFields

pub record DownstreamChunk : Type 0 where
  pub stream_id_alias : ℕ
  pub upstream_or_alias : Option UpstreamOrAlias
  pub stream_chunk : Option StreamChunk
  pub extension_fields : Option EmptyFields
  pub downstream_filter_references : Option (List (List (Option DownstreamFilterReference)))

pub record DownstreamChunkAck : Type 0 where
  pub stream_id_alias : ℕ
  pub ack_id : ℕ
  pub results : List DownstreamChunkResult
  pub upstream_aliases : List (ℕ × Option UpstreamInfo)
  pub data_id_aliases : List (ℕ × DataId)
  pub extension_fields : Option EmptyFields

pub record DownstreamChunkAckComplete : Type 0 where
  pub stream_id_alias : ℕ
  pub ack_id : ℕ
  pub result_code : ResultCode
  pub result_string : String
  pub extension_fields : Option EmptyFields

pub record UpstreamMetadata (T : Type 0) : Type 0 where
  pub request_id : ℕ
  pub metadata : SendableMetadata T
  pub extension_fields : Option UpstreamMetadataExtensionFields

pub record UpstreamMetadataAck : Type 0 where
  pub request_id : ℕ
  pub result_code : ResultCode
  pub result_string : String
  pub extension_fields : Option EmptyFields

pub record DownstreamMetadata (T : Type 0) : Type 0 where
  pub request_id : ℕ
  pub stream_id_alias : ℕ
  pub source_node_id : String
  pub metadata : Metadata T
  pub extension_fields : Option EmptyFields

pub record DownstreamMetadataAck : Type 0 where
  pub request_id : ℕ
  pub result_code : ResultCode
  pub result_string : String
  pub extension_fields : Option EmptyFields

-- The pointers to messages, each a `message.Message`; two of them the code tests for nil. `unknown` is
-- nil, or a type that the switch has no case for.
pub data Message (T : Type 0) : Type 0 where
  connect_request : ConnectRequest → Message T
  connect_response : ConnectResponse → Message T
  disconnect : Disconnect → Message T
  upstream_open_request : UpstreamOpenRequest → Message T
  upstream_open_response : UpstreamOpenResponse T → Message T
  upstream_resume_request : UpstreamResumeRequest → Message T
  upstream_resume_response : UpstreamResumeResponse → Message T
  upstream_close_request : UpstreamCloseRequest → Message T
  upstream_close_response : UpstreamCloseResponse → Message T
  downstream_open_request : DownstreamOpenRequest → Message T
  downstream_open_response : DownstreamOpenResponse T → Message T
  downstream_resume_request : DownstreamResumeRequest → Message T
  downstream_resume_response : DownstreamResumeResponse → Message T
  downstream_close_request : DownstreamCloseRequest → Message T
  downstream_close_response : DownstreamCloseResponse → Message T
  upstream_call : UpstreamCall → Message T
  upstream_call_ack : UpstreamCallAck → Message T
  downstream_call : DownstreamCall → Message T
  ping : Ping → Message T
  pong : Pong → Message T
  upstream_chunk : UpstreamChunk → Message T
  upstream_chunk_ack : UpstreamChunkAck → Message T
  downstream_chunk : Option DownstreamChunk → Message T
  downstream_chunk_ack : DownstreamChunkAck → Message T
  downstream_chunk_ack_complete : DownstreamChunkAckComplete → Message T
  upstream_metadata : Option (UpstreamMetadata T) → Message T
  upstream_metadata_ack : UpstreamMetadataAck → Message T
  downstream_metadata : DownstreamMetadata T → Message T
  downstream_metadata_ack : DownstreamMetadataAck → Message T
  unknown : Message T
