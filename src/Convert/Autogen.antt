-- ===== src/Convert/Autogen.antt =====
-- The protobuf messages, as encoding/convert fills and reads them.
mod Parts
use iscp_go.Prelude.{ℕ, String, Bool, Option, List}
use iscp_go.Convert.Autogen.Parts
unfoldable pub use Parts.*

pub record ConnectRequest : Type 0 where
  pub request_id : ℕ
  pub protocol_version : String
  pub node_id : String
  pub ping_interval : ℕ
  pub ping_timeout : ℕ
  pub extension_fields : Option ConnectRequestExtensionFields

pub record ConnectResponse : Type 0 where
  pub request_id : ℕ
  pub protocol_version : String
  pub result_code : ℕ
  pub result_string : String
  pub extension_fields : Option EmptyFields

pub record Disconnect : Type 0 where
  pub result_code : ℕ
  pub result_string : String
  pub extension_fields : Option EmptyFields

pub record UpstreamOpenRequest : Type 0 where
  pub request_id : ℕ
  pub session_id : String
  pub ack_interval : ℕ
  pub expiry_interval : ℕ
  pub data_ids : List DataId
  pub qos : ℕ
  pub extension_fields : Option UpstreamOpenRequestExtensionFields

pub record UpstreamOpenResponse : Type 0 where
  pub request_id : ℕ
  pub assigned_stream_id : List ℕ
  pub assigned_stream_id_alias : ℕ
  pub data_id_aliases : List (ℕ × DataId)
  pub server_time : ℕ
  pub result_code : ℕ
  pub result_string : String
  pub extension_fields : Option EmptyFields
  pub resume_token : String

pub record UpstreamResumeRequest : Type 0 where
  pub request_id : ℕ
  pub stream_id : List ℕ
  pub extension_fields : Option EmptyFields
  pub resume_token : String

pub record UpstreamResumeResponse : Type 0 where
  pub request_id : ℕ
  pub assigned_stream_id_alias : ℕ
  pub result_code : ℕ
  pub result_string : String
  pub extension_fields : Option EmptyFields
  pub resume_token : String

pub record UpstreamCloseRequest : Type 0 where
  pub request_id : ℕ
  pub stream_id : List ℕ
  pub total_data_points : ℕ
  pub final_sequence_number : ℕ
  pub extension_fields : Option UpstreamCloseRequestExtensionFields

pub record UpstreamCloseResponse : Type 0 where
  pub request_id : ℕ
  pub result_code : ℕ
  pub result_string : String
  pub extension_fields : Option EmptyFields

pub record DownstreamOpenRequest : Type 0 where
  pub request_id : ℕ
  pub desired_stream_id_alias : ℕ
  pub downstream_filters : List DownstreamFilter
  pub expiry_interval : ℕ
  pub data_id_aliases : List (ℕ × DataId)
  pub qos : ℕ
  pub extension_fields : Option EmptyFields
  pub omit_empty_chunk : Bool

pub record DownstreamOpenResponse : Type 0 where
  pub request_id : ℕ
  pub assigned_stream_id : List ℕ
  pub server_time : ℕ
  pub result_code : ℕ
  pub result_string : String
  pub extension_fields : Option EmptyFields
  pub resume_token : String

pub record DownstreamResumeRequest : Type 0 where
  pub request_id : ℕ
  pub stream_id : List ℕ
  pub desired_stream_id_alias : ℕ
  pub extension_fields : Option EmptyFields
  pub resume_token : String

pub record DownstreamResumeResponse : Type 0 where
  pub request_id : ℕ
  pub result_code : ℕ
  pub result_string : String
  pub extension_fields : Option EmptyFields
  pub resume_token : String

pub record DownstreamCloseRequest : Type 0 where
  pub request_id : ℕ
  pub stream_id : List ℕ
  pub extension_fields : Option EmptyFields

pub record DownstreamCloseResponse : Type 0 where
  pub request_id : ℕ
  pub result_code : ℕ
  pub result_string : String
  pub extension_fields : Option EmptyFields

pub record UpstreamCall : Type 0 where
  pub call_id : String
  pub request_call_id : String
  pub destination_node_id : String
  pub name : String
  pub type_name : String
  pub payload : List ℕ
  pub extension_fields : Option EmptyFields

pub record UpstreamCallAck : Type 0 where
  pub call_id : String
  pub result_code : ℕ
  pub result_string : String
  pub extension_fields : Option EmptyFields

pub record DownstreamCall : Type 0 where
  pub call_id : String
  pub request_call_id : String
  pub source_node_id : String
  pub name : String
  pub type_name : String
  pub payload : List ℕ
  pub extension_fields : Option EmptyFields

pub record Ping : Type 0 where
  pub request_id : ℕ
  pub extension_fields : Option EmptyFields

pub record Pong : Type 0 where
  pub request_id : ℕ
  pub extension_fields : Option EmptyFields

pub record UpstreamChunk : Type 0 where
  pub stream_id_alias : ℕ
  pub stream_chunk : Option StreamChunk
  pub data_ids : List DataId
  pub extension_fields : Option EmptyFields

pub record UpstreamChunkAck : Type 0 where
  pub stream_id_alias : ℕ
  pub results : List UpstreamChunkResult
  pub data_id_aliases : List (ℕ × DataId)
  pub extension_fields : Option EmptyFields

pub record DownstreamChunk : Type 0 where
  pub stream_id_alias : ℕ
  pub upstream_or_alias : Option UpstreamOrAlias
  pub stream_chunk : Option StreamChunk
  pub extension_fields : Option EmptyFields
  pub downstream_filter_references : Option (List (Option DownstreamFilterReferences))

pub record DownstreamChunkAck : Type 0 where
  pub stream_id_alias : ℕ
  pub ack_id : ℕ
  pub results : List DownstreamChunkResult
  pub upstream_aliases : List (ℕ × Option UpstreamInfo)
  pub data_id_aliases : List (ℕ × DataId)
  pub extension_fields : Option EmptyFields

pub record DownstreamChunkAckComplete : Type 0 where
  pub stream_id_alias : ℕ
  pub ack_id : ℕ
  pub result_code : ℕ
  pub result_string : String
  pub extension_fields : Option EmptyFields

pub record UpstreamMetadata : Type 0 where
  pub request_id : ℕ
  pub metadata : Option UpstreamMetadataCase
  pub extension_fields : Option UpstreamMetadataExtensionFields

pub record UpstreamMetadataAck : Type 0 where
  pub request_id : ℕ
  pub result_code : ℕ
  pub result_string : String
  pub extension_fields : Option EmptyFields

pub record DownstreamMetadata : Type 0 where
  pub request_id : ℕ
  pub stream_id_alias : ℕ
  pub source_node_id : String
  pub metadata : Option Metadata
  pub extension_fields : Option EmptyFields

pub record DownstreamMetadataAck : Type 0 where
  pub request_id : ℕ
  pub result_code : ℕ
  pub result_string : String
  pub extension_fields : Option EmptyFields

-- The cases of the field `Message`.
pub data Message : Type 0 where
  connect_request : ConnectRequest → Message
  connect_response : ConnectResponse → Message
  disconnect : Disconnect → Message
  upstream_open_request : UpstreamOpenRequest → Message
  upstream_open_response : UpstreamOpenResponse → Message
  upstream_resume_request : UpstreamResumeRequest → Message
  upstream_resume_response : UpstreamResumeResponse → Message
  upstream_close_request : UpstreamCloseRequest → Message
  upstream_close_response : UpstreamCloseResponse → Message
  downstream_open_request : DownstreamOpenRequest → Message
  downstream_open_response : DownstreamOpenResponse → Message
  downstream_resume_request : DownstreamResumeRequest → Message
  downstream_resume_response : DownstreamResumeResponse → Message
  downstream_close_request : DownstreamCloseRequest → Message
  downstream_close_response : DownstreamCloseResponse → Message
  upstream_call : UpstreamCall → Message
  upstream_call_ack : UpstreamCallAck → Message
  downstream_call : DownstreamCall → Message
  ping : Ping → Message
  pong : Pong → Message
  upstream_chunk : UpstreamChunk → Message
  upstream_chunk_ack : UpstreamChunkAck → Message
  downstream_chunk : DownstreamChunk → Message
  downstream_chunk_ack : DownstreamChunkAck → Message
  downstream_chunk_ack_complete : DownstreamChunkAckComplete → Message
  upstream_metadata : UpstreamMetadata → Message
  upstream_metadata_ack : UpstreamMetadataAck → Message
  downstream_metadata : DownstreamMetadata → Message
  downstream_metadata_ack : DownstreamMetadataAck → Message
