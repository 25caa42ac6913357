-- ===== src/Convert/Codes.antt =====
-- message/result_code.go and message/qos.go, and the constants of the generated package that the
-- two switches of encoding/convert name.
use iscp_go.Prelude.{ℕ, Option, none, some}

-- `other` is every number that is no constant of the package, 0 included.
pub data ResultCode : Type 0 where
  succeeded normal_closure incompatible_version maximum_data_id_alias : ResultCode
  maximum_upstream_alias unspecified_error no_node_id auth_failed connect_timeout : ResultCode
  malformed_message protocol_error ack_timeout invalid_payload invalid_data_id : ResultCode
  invalid_data_id_alias invalid_data_filter stream_not_found resume_request_conflict : ResultCode
  process_failed desired_qos_not_supported ping_timeout too_large_message_size : ResultCode
  too_many_data_id_aliases too_many_streams too_long_ack_interval : ResultCode
  too_many_downstream_filters too_many_data_filters too_long_expiry_interval : ResultCode
  too_long_ping_timeout too_short_ping_interval too_short_ping_timeout : ResultCode
  node_id_mismatch rate_limit_reached session_not_found session_already_closed : ResultCode
  session_cannot_closed invalid_resume_token : ResultCode
  other : ℕ → ResultCode

-- The constants `autogen.ResultCode_...`, by name.
pub data CodeName : Type 0 where
  succeeded incompatible_version maximum_data_id_alias : CodeName
  maximum_upstream_alias unspecified_error no_node_id auth_failed connect_timeout : CodeName
  malformed_message protocol_error ack_timeout invalid_payload invalid_data_id : CodeName
  invalid_data_id_alias invalid_data_filter stream_not_found resume_request_conflict : CodeName
  process_failed desired_qos_not_supported ping_timeout too_large_message_size : CodeName
  too_many_data_id_aliases too_many_streams too_long_ack_interval : CodeName
  too_many_downstream_filters too_many_data_filters too_long_expiry_interval : CodeName
  too_long_ping_timeout too_short_ping_interval too_short_ping_timeout : CodeName
  node_id_mismatch rate_limit_reached session_not_found session_already_closed : CodeName
  session_cannot_closed invalid_resume_token : CodeName

-- `unlisted` is every number that is no constant of the package.
pub data Qos : Type 0 where
  unreliable reliable partial : Qos
  unlisted : ℕ → Qos

-- The constants `autogen.QoS_...`, by name.
pub data QosName : Type 0 where
  unreliable reliable partial : QosName

-- The constant that `toResultCodeProto` returns for a code, if any.
unfoldable pub code_name : ResultCode → Option CodeName
code_name ResultCode.succeeded = some CodeName.succeeded
code_name ResultCode.normal_closure = some CodeName.succeeded
code_name ResultCode.incompatible_version = some CodeName.incompatible_version
code_name ResultCode.maximum_data_id_alias = some CodeName.maximum_data_id_alias
code_name ResultCode.maximum_upstream_alias = some CodeName.maximum_upstream_alias
code_name ResultCode.unspecified_error = some CodeName.unspecified_error
code_name ResultCode.no_node_id = some CodeName.no_node_id
code_name ResultCode.auth_failed = some CodeName.auth_failed
code_name ResultCode.connect_timeout = some CodeName.connect_timeout
code_name ResultCode.malformed_message = some CodeName.malformed_message
code_name ResultCode.protocol_error = some CodeName.protocol_error
code_name ResultCode.ack_timeout = some CodeName.ack_timeout
code_name ResultCode.invalid_payload = some CodeName.invalid_payload
code_name ResultCode.invalid_data_id = some CodeName.invalid_data_id
code_name ResultCode.invalid_data_id_alias = some CodeName.invalid_data_id_alias
code_name ResultCode.invalid_data_filter = some CodeName.invalid_data_filter
code_name ResultCode.stream_not_found = some CodeName.stream_not_found
code_name ResultCode.resume_request_conflict = some CodeName.resume_request_conflict
code_name ResultCode.process_failed = some CodeName.process_failed
code_name ResultCode.desired_qos_not_supported = some CodeName.desired_qos_not_supported
code_name ResultCode.ping_timeout = some CodeName.ping_timeout
code_name ResultCode.too_large_message_size = some CodeName.too_large_message_size
code_name ResultCode.too_many_data_id_aliases = some CodeName.too_many_data_id_aliases
code_name ResultCode.too_many_streams = some CodeName.too_many_streams
code_name ResultCode.too_long_ack_interval = some CodeName.too_long_ack_interval
code_name ResultCode.too_many_downstream_filters = some CodeName.too_many_downstream_filters
code_name ResultCode.too_many_data_filters = some CodeName.too_many_data_filters
code_name ResultCode.too_long_expiry_interval = some CodeName.too_long_expiry_interval
code_name ResultCode.too_long_ping_timeout = some CodeName.too_long_ping_timeout
code_name ResultCode.too_short_ping_interval = some CodeName.too_short_ping_interval
code_name ResultCode.too_short_ping_timeout = some CodeName.too_short_ping_timeout
code_name ResultCode.node_id_mismatch = some CodeName.node_id_mismatch
code_name ResultCode.rate_limit_reached = some CodeName.rate_limit_reached
code_name ResultCode.session_not_found = some CodeName.session_not_found
code_name ResultCode.session_already_closed = some CodeName.session_already_closed
code_name ResultCode.session_cannot_closed = some CodeName.session_cannot_closed
code_name ResultCode.invalid_resume_token = some CodeName.invalid_resume_token
code_name (other n) = none

-- The code that `toResultCode` returns for a constant.
unfoldable pub code_of_name : CodeName → ResultCode
code_of_name CodeName.succeeded = ResultCode.succeeded
code_of_name CodeName.incompatible_version = ResultCode.incompatible_version
code_of_name CodeName.maximum_data_id_alias = ResultCode.maximum_data_id_alias
code_of_name CodeName.maximum_upstream_alias = ResultCode.maximum_upstream_alias
code_of_name CodeName.unspecified_error = ResultCode.unspecified_error
code_of_name CodeName.no_node_id = ResultCode.no_node_id
code_of_name CodeName.auth_failed = ResultCode.auth_failed
code_of_name CodeName.connect_timeout = ResultCode.connect_timeout
code_of_name CodeName.malformed_message = ResultCode.malformed_message
code_of_name CodeName.protocol_error = ResultCode.protocol_error
code_of_name CodeName.ack_timeout = ResultCode.ack_timeout
code_of_name CodeName.invalid_payload = ResultCode.invalid_payload
code_of_name CodeName.invalid_data_id = ResultCode.invalid_data_id
code_of_name CodeName.invalid_data_id_alias = ResultCode.invalid_data_id_alias
code_of_name CodeName.invalid_data_filter = ResultCode.invalid_data_filter
code_of_name CodeName.stream_not_found = ResultCode.stream_not_found
code_of_name CodeName.resume_request_conflict = ResultCode.resume_request_conflict
code_of_name CodeName.process_failed = ResultCode.process_failed
code_of_name CodeName.desired_qos_not_supported = ResultCode.desired_qos_not_supported
code_of_name CodeName.ping_timeout = ResultCode.ping_timeout
code_of_name CodeName.too_large_message_size = ResultCode.too_large_message_size
code_of_name CodeName.too_many_data_id_aliases = ResultCode.too_many_data_id_aliases
code_of_name CodeName.too_many_streams = ResultCode.too_many_streams
code_of_name CodeName.too_long_ack_interval = ResultCode.too_long_ack_interval
code_of_name CodeName.too_many_downstream_filters = ResultCode.too_many_downstream_filters
code_of_name CodeName.too_many_data_filters = ResultCode.too_many_data_filters
code_of_name CodeName.too_long_expiry_interval = ResultCode.too_long_expiry_interval
code_of_name CodeName.too_long_ping_timeout = ResultCode.too_long_ping_timeout
code_of_name CodeName.too_short_ping_interval = ResultCode.too_short_ping_interval
code_of_name CodeName.too_short_ping_timeout = ResultCode.too_short_ping_timeout
code_of_name CodeName.node_id_mismatch = ResultCode.node_id_mismatch
code_of_name CodeName.rate_limit_reached = ResultCode.rate_limit_reached
code_of_name CodeName.session_not_found = ResultCode.session_not_found
code_of_name CodeName.session_already_closed = ResultCode.session_already_closed
code_of_name CodeName.session_cannot_closed = ResultCode.session_cannot_closed
code_of_name CodeName.invalid_resume_token = ResultCode.invalid_resume_token

-- The constant that `toQoSProto` returns for a quality of service, if any.
unfoldable pub qos_name : Qos → Option QosName
qos_name Qos.unreliable = some QosName.unreliable
qos_name Qos.reliable = some QosName.reliable
qos_name Qos.partial = some QosName.partial
qos_name (unlisted n) = none

-- What `toQoS` returns for a constant.
unfoldable pub qos_of_name : QosName → Qos
qos_of_name QosName.unreliable = Qos.unreliable
qos_of_name QosName.reliable = Qos.reliable
qos_of_name QosName.partial = Qos.partial
