-- ===== src/Convert/ToProto/Upstreams.antt =====
-- encoding/convert/wire_to_proto.go: opening, resuming and closing upstreams.
use iscp_go.Convert.Outcome.{Outcome, ok, ◌>>=◌}
use iscp_go.Convert.Messages
use iscp_go.Convert.Autogen
use iscp_go.Convert.Outside.{Outside}
use iscp_go.Convert.ToProto.Parts.{to_data_id_aliases_proto, to_data_ids_proto}
use iscp_go.Convert.ToProto.Parts.{to_empty_fields_proto}
use iscp_go.Convert.ToProto.Parts.{to_upstream_open_request_extension_fields_proto}
use iscp_go.Convert.ToProto.Parts.{to_upstream_close_request_extension_fields_proto}
use iscp_go.Convert.ToProto.Parts.{to_result_code_proto, to_qos_proto, or_unix_zero}

unfoldable pub upstream_resume_request_proto :
    Messages.UpstreamResumeRequest → Autogen.UpstreamResumeRequest
upstream_resume_request_proto m = record {
  request_id = m.request_id;
  stream_id = m.stream_id;
  extension_fields = to_empty_fields_proto m.extension_fields;
  resume_token = m.resume_token;
}

unfoldable pub upstream_close_request_proto :
    Messages.UpstreamCloseRequest → Autogen.UpstreamCloseRequest
upstream_close_request_proto m = record {
  request_id = m.request_id;
  stream_id = m.stream_id;
  total_data_points = m.total_data_points;
  final_sequence_number = m.final_sequence_number;
  extension_fields = to_upstream_close_request_extension_fields_proto m.extension_fields;
}

module _ {T P : Type 0} (o : Outside T P) where
  unfoldable pub upstream_open_request_proto :
      Messages.UpstreamOpenRequest → Outcome Autogen.UpstreamOpenRequest
  upstream_open_request_proto m = do
    q ← to_qos_proto o m.qos
    ok (record {
      request_id = m.request_id;
      session_id = m.session_id;
      ack_interval = o.milliseconds m.ack_interval;
      expiry_interval = o.seconds m.expiry_interval;
      data_ids = to_data_ids_proto m.data_ids;
      qos = q;
      extension_fields = to_upstream_open_request_extension_fields_proto m.extension_fields;
    })

  unfoldable pub upstream_open_response_proto :
      Messages.UpstreamOpenResponse T → Outcome Autogen.UpstreamOpenResponse
  upstream_open_response_proto m = do
    code ← to_result_code_proto o m.result_code
    ok (record {
      request_id = m.request_id;
      assigned_stream_id = m.assigned_stream_id;
      assigned_stream_id_alias = m.assigned_stream_id_alias;
      data_id_aliases = to_data_id_aliases_proto m.data_id_aliases;
      server_time = or_unix_zero o m.server_time;
      result_code = code;
      result_string = m.result_string;
      extension_fields = to_empty_fields_proto m.extension_fields;
      resume_token = m.resume_token;
    })

  unfoldable pub upstream_resume_response_proto :
      Messages.UpstreamResumeResponse → Outcome Autogen.UpstreamResumeResponse
  upstream_resume_response_proto m = do
    code ← to_result_code_proto o m.result_code
    ok (record {
      request_id = m.request_id;
      assigned_stream_id_alias = m.assigned_stream_id_alias;
      result_code = code;
      result_string = m.result_string;
      extension_fields = to_empty_fields_proto m.extension_fields;
      resume_token = m.resume_token;
    })

  unfoldable pub upstream_close_response_proto :
      Messages.UpstreamCloseResponse → Outcome Autogen.UpstreamCloseResponse
  upstream_close_response_proto m = do
    code ← to_result_code_proto o m.result_code
    ok (record {
      request_id = m.request_id;
      result_code = code;
      result_string = m.result_string;
      extension_fields = to_empty_fields_proto m.extension_fields;
    })
