-- ===== src/Convert/RoundTrip/Names.antt =====
-- The codes and the qualities of service that have a constant of their own.
use iscp_go.Prelude.{◌≡◌, refl, some}
use iscp_go.Convert.Codes.{ResultCode, CodeName, Qos, QosName, code_name, code_of_name}
use iscp_go.Convert.Codes.{qos_name, qos_of_name, other, unlisted}
use iscp_go.Convert.RoundTrip.Carried.{CarriedCode, CarriedQos}

-- Every code but `normal_closure` has its constant, and the constant has the code.
pub code_names :
    (c : ResultCode)
    → CarriedCode c
    → (n : CodeName) × (code_name c ≡ some n) × (code_of_name n ≡ c)
unfolding code_name code_of_name
code_names ResultCode.normal_closure h = elim h [ ]
code_names (other n) h = elim h [ ]
code_names ResultCode.succeeded h = (CodeName.succeeded, refl, refl)
code_names ResultCode.incompatible_version h = (CodeName.incompatible_version, refl, refl)
code_names ResultCode.maximum_data_id_alias h = (CodeName.maximum_data_id_alias, refl, refl)
code_names ResultCode.maximum_upstream_alias h = (CodeName.maximum_upstream_alias, refl, refl)
code_names ResultCode.unspecified_error h = (CodeName.unspecified_error, refl, refl)
code_names ResultCode.no_node_id h = (CodeName.no_node_id, refl, refl)
code_names ResultCode.auth_failed h = (CodeName.auth_failed, refl, refl)
code_names ResultCode.connect_timeout h = (CodeName.connect_timeout, refl, refl)
code_names ResultCode.malformed_message h = (CodeName.malformed_message, refl, refl)
code_names ResultCode.protocol_error h = (CodeName.protocol_error, refl, refl)
code_names ResultCode.ack_timeout h = (CodeName.ack_timeout, refl, refl)
code_names ResultCode.invalid_payload h = (CodeName.invalid_payload, refl, refl)
code_names ResultCode.invalid_data_id h = (CodeName.invalid_data_id, refl, refl)
code_names ResultCode.invalid_data_id_alias h = (CodeName.invalid_data_id_alias, refl, refl)
code_names ResultCode.invalid_data_filter h = (CodeName.invalid_data_filter, refl, refl)
code_names ResultCode.stream_not_found h = (CodeName.stream_not_found, refl, refl)
code_names ResultCode.resume_request_conflict h = (CodeName.resume_request_conflict, refl, refl)
code_names ResultCode.process_failed h = (CodeName.process_failed, refl, refl)
code_names ResultCode.desired_qos_not_supported h = (CodeName.desired_qos_not_supported, refl, refl)
code_names ResultCode.ping_timeout h = (CodeName.ping_timeout, refl, refl)
code_names ResultCode.too_large_message_size h = (CodeName.too_large_message_size, refl, refl)
code_names ResultCode.too_many_data_id_aliases h = (CodeName.too_many_data_id_aliases, refl, refl)
code_names ResultCode.too_many_streams h = (CodeName.too_many_streams, refl, refl)
code_names ResultCode.too_long_ack_interval h = (CodeName.too_long_ack_interval, refl, refl)
code_names ResultCode.too_many_downstream_filters h =
    (CodeName.too_many_downstream_filters, refl, refl)
code_names ResultCode.too_many_data_filters h = (CodeName.too_many_data_filters, refl, refl)
code_names ResultCode.too_long_expiry_interval h = (CodeName.too_long_expiry_interval, refl, refl)
code_names ResultCode.too_long_ping_timeout h = (CodeName.too_long_ping_timeout, refl, refl)
code_names ResultCode.too_short_ping_interval h = (CodeName.too_short_ping_interval, refl, refl)
code_names ResultCode.too_short_ping_timeout h = (CodeName.too_short_ping_timeout, refl, refl)
code_names ResultCode.node_id_mismatch h = (CodeName.node_id_mismatch, refl, refl)
code_names ResultCode.rate_limit_reached h = (CodeName.rate_limit_reached, refl, refl)
code_names ResultCode.session_not_found h = (CodeName.session_not_found, refl, refl)
code_names ResultCode.session_already_closed h = (CodeName.session_already_closed, refl, refl)
code_names ResultCode.session_cannot_closed h = (CodeName.session_cannot_closed, refl, refl)
code_names ResultCode.invalid_resume_token h = (CodeName.invalid_resume_token, refl, refl)

pub qos_names :
    (q : Qos) → CarriedQos q → (n : QosName) × (qos_name q ≡ some n) × (qos_of_name n ≡ q)
unfolding qos_name qos_of_name
qos_names Qos.unreliable h = (QosName.unreliable, refl, refl)
qos_names Qos.reliable h = (QosName.reliable, refl, refl)
qos_names Qos.partial h = (QosName.partial, refl, refl)
qos_names (unlisted n) h = elim h [ ]
