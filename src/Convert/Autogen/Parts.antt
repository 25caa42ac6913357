-- ===== src/Convert/Autogen/Parts.antt =====
-- The parts of protobuf messages: for each struct of the generated package that encoding/convert
-- fills, the fields that its literals set. A pointer is an `Option` where the code tests it for nil.
use iscp_go.Prelude.{ℕ, String, Bool, Option, List}

pub record DataId : Type 0 where
  pub name : String
  pub type_name : String

pub record DataFilter : Type 0 where
  pub name : String
  pub type_name : String

pub record DownstreamFilter : Type 0 where
  pub source_node_id : String
  pub data_filters : List DataFilter

pub record DataPoint : Type 0 where
  pub elapsed_time : ℕ
  pub payload : List ℕ

pub data DataIdOrAlias : Type 0 where
  data_id : DataId → DataIdOrAlias
  data_id_alias : ℕ → DataIdOrAlias

pub record DataPointGroup : Type 0 where
  pub data_id_or_alias : Option DataIdOrAlias
  pub data_points : List DataPoint

pub record StreamChunk : Type 0 where
  pub sequence_number : ℕ
  pub data_point_groups : List (Option DataPointGroup)

-- All extension fields of a struct without fields.
pub record EmptyFields : Type 0 where

pub record UpstreamChunkResult : Type 0 where
  pub sequence_number : ℕ
  pub result_code : ℕ
  pub result_string : String
  pub extension_fields : Option EmptyFields

pub record DownstreamChunkResult : Type 0 where
  pub stream_id_of_upstream : List ℕ
  pub sequence_number_in_upstream : ℕ
  pub result_code : ℕ
  pub result_string : String
  pub extension_fields : Option EmptyFields

pub record UpstreamInfo : Type 0 where
  pub session_id : String
  pub source_node_id : String
  pub stream_id : List ℕ

pub data UpstreamOrAlias : Type 0 where
  upstream_info : UpstreamInfo → UpstreamOrAlias
  upstream_alias : ℕ → UpstreamOrAlias

pub record DownstreamFilterReference : Type 0 where
  pub downstream_filter_index : ℕ
  pub data_filter_index : ℕ

pub record DownstreamFilterReferences : Type 0 where
  pub references : List (Option DownstreamFilterReference)

pub record IntdashExtensionFields : Type 0 where
  pub project_uuid : String

pub record ConnectRequestExtensionFields : Type 0 where
  pub access_token : String
  pub intdash : Option IntdashExtensionFields

pub record UpstreamOpenRequestExtensionFields : Type 0 where
  pub persist : Bool

pub record UpstreamCloseRequestExtensionFields : Type 0 where
  pub close_session : Bool

pub record UpstreamMetadataExtensionFields : Type 0 where
  pub persist : Bool

pub record BaseTime : Type 0 where
  pub session_id : String
  pub name : String
  pub priority : ℕ
  pub elapsed_time : ℕ
  pub base_time : ℕ

pub record UpstreamOpen : Type 0 where
  pub stream_id : List ℕ
  pub session_id : String
  pub qos : ℕ

pub record UpstreamAbnormalClose : Type 0 where
  pub stream_id : List ℕ
  pub session_id : String

pub record UpstreamResume : Type 0 where
  pub stream_id : List ℕ
  pub session_id : String
  pub qos : ℕ

pub record UpstreamNormalClose : Type 0 where
  pub stream_id : List ℕ
  pub session_id : String
  pub total_data_points : ℕ
  pub final_sequence_number : ℕ

pub record DownstreamOpen : Type 0 where
  pub stream_id : List ℕ
  pub downstream_filters : List DownstreamFilter
  pub qos : ℕ

pub record DownstreamAbnormalClose : Type 0 where
  pub stream_id : List ℕ

pub record DownstreamResume : Type 0 where
  pub stream_id : List ℕ
  pub downstream_filters : List DownstreamFilter
  pub qos : ℕ

pub record DownstreamNormalClose : Type 0 where
  pub stream_id : List ℕ

-- The field `Metadata` of the two metadata messages; nil is `none` there.
pub data Metadata : Type 0 where
  base_time : BaseTime → Metadata
  upstream_open : UpstreamOpen → Metadata
  upstream_abnormal_close : UpstreamAbnormalClose → Metadata
  upstream_resume : UpstreamResume → Metadata
  upstream_normal_close : UpstreamNormalClose → Metadata
  downstream_open : DownstreamOpen → Metadata
  downstream_abnormal_close : DownstreamAbnormalClose → Metadata
  downstream_resume : DownstreamResume → Metadata
  downstream_normal_close : DownstreamNormalClose → Metadata

-- The field `Metadata` of an upstream metadata message has one case only.
pub data UpstreamMetadataCase : Type 0 where
  base_time : BaseTime → UpstreamMetadataCase
