-- ===== src/Convert/Messages/Parts.antt =====
-- The parts of messages: message/data.go, message/metadata.go, message/downstream_filter.go and the
-- extension fields. A pointer is an `Option` where the code tests it for nil, and a value where the
-- code follows it without a test. A `time.Duration` is the 64-bit pattern of its nanoseconds, a
-- `uuid.UUID` the list of its sixteen bytes, and a `time.Time` a parameter.
use iscp_go.Prelude.{ℕ, String, Bool, Option, List}
use iscp_go.Convert.Codes.{ResultCode, Qos}

pub record DataId : Type 0 where
  pub name : String
  pub type_name : String

pub record DataFilter : Type 0 where
  pub name : String
  pub type_name : String

pub record DownstreamFilter : Type 0 where
  pub source_node_id : String
  pub data_filters : List DataFilter

pub record DataPoint : Type 0 where
  pub elapsed_time : ℕ
  pub payload : List ℕ

-- A method with a value receiver gives `*DataIDAlias` the interface as well.
pub data DataIdOrAlias : Type 0 where
  by_id : DataId → DataIdOrAlias
  by_alias by_alias_pointer : ℕ → DataIdOrAlias

pub record DataPointGroup : Type 0 where
  pub data_id_or_alias : Option DataIdOrAlias
  pub data_points : List DataPoint

pub record StreamChunk : Type 0 where
  pub sequence_number : ℕ
  pub data_point_groups : List (Option DataPointGroup)

-- All extension fields of a struct without fields.
pub record EmptyFields : Type 0 where

pub record UpstreamChunkResult : Type 0 where
  pub sequence_number : ℕ
  pub result_code : ResultCode
  pub result_string : String
  pub extension_fields : Option EmptyFields

pub record DownstreamChunkResult : Type 0 where
  pub stream_id_of_upstream : List ℕ
  pub sequence_number_in_upstream : ℕ
  pub result_code : ResultCode
  pub result_string : String
  pub extension_fields : Option EmptyFields

pub record UpstreamInfo : Type 0 where
  pub session_id : String
  pub source_node_id : String
  pub stream_id : List ℕ

-- `*UpstreamAlias` has the interface too, and the switch has no case for it.
pub data UpstreamOrAlias : Type 0 where
  info : UpstreamInfo → UpstreamOrAlias
  alias alias_pointer : ℕ → UpstreamOrAlias

pub record DownstreamFilterReference : Type 0 where
  pub downstream_filter_index : ℕ
  pub data_filter_index : ℕ

pub record IntdashExtensionFields : Type 0 where
  pub project_uuid : List ℕ

pub record ConnectRequestExtensionFields : Type 0 where
  pub access_token : String
  pub intdash : Option IntdashExtensionFields

pub record UpstreamOpenRequestExtensionFields : Type 0 where
  pub persist : Bool

pub record UpstreamCloseRequestExtensionFields : Type 0 where
  pub close_session : Bool

pub record UpstreamMetadataExtensionFields : Type 0 where
  pub persist : Bool

pub record BaseTime (T : Type 0) : Type 0 where
  pub session_id : String
  pub name : String
  pub priority : ℕ
  pub elapsed_time : ℕ
  pub base_time : T

pub record UpstreamOpen : Type 0 where
  pub stream_id : List ℕ
  pub session_id : String
  pub qos : Qos

pub record UpstreamAbnormalClose : Type 0 where
  pub stream_id : List ℕ
  pub session_id : String

pub record UpstreamResume : Type 0 where
  pub stream_id : List ℕ
  pub session_id : String
  pub qos : Qos

pub record UpstreamNormalClose : Type 0 where
  pub stream_id : List ℕ
  pub session_id : String
  pub total_data_points : ℕ
  pub final_sequence_number : ℕ

pub record DownstreamOpen : Type 0 where
  pub stream_id : List ℕ
  pub downstream_filters : List DownstreamFilter
  pub qos : Qos

pub record DownstreamAbnormalClose : Type 0 where
  pub stream_id : List ℕ

pub record DownstreamResume : Type 0 where
  pub stream_id : List ℕ
  pub downstream_filters : List DownstreamFilter
  pub qos : Qos

pub record DownstreamNormalClose : Type 0 where
  pub stream_id : List ℕ

-- The interface `Metadata`, and nil or a type that no case of the switch names.
pub data Metadata (T : Type 0) : Type 0 where
  base_time : BaseTime T → Metadata T
  upstream_open : UpstreamOpen → Metadata T
  upstream_abnormal_close : UpstreamAbnormalClose → Metadata T
  upstream_resume : UpstreamResume → Metadata T
  upstream_normal_close : UpstreamNormalClose → Metadata T
  downstream_open : DownstreamOpen → Metadata T
  downstream_abnormal_close : DownstreamAbnormalClose → Metadata T
  downstream_resume : DownstreamResume → Metadata T
  downstream_normal_close : DownstreamNormalClose → Metadata T
  no_case : Metadata T

-- The interface `SendableMetadata`, which only a base time has, and nil.
pub data SendableMetadata (T : Type 0) : Type 0 where
  base_time : BaseTime T → SendableMetadata T
  no_case : SendableMetadata T
