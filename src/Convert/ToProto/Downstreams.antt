-- ===== src/Convert/ToProto/Downstreams.antt =====
-- encoding/convert/wire_to_proto.go: opening, resuming and closing downstreams.
use iscp_go.Convert.Outcome.{Outcome, ok, ◌>>=◌}
use iscp_go.Convert.Messages
use iscp_go.Convert.Autogen
use iscp_go.Convert.Outside.{Outside}
use iscp_go.Convert.ToProto.Parts.{to_data_id_aliases_proto, to_downstream_filters_proto}
use iscp_go.Convert.ToProto.Parts.{to_empty_fields_proto, to_result_code_proto, to_qos_proto}
use iscp_go.Convert.ToProto.Parts.{or_unix_zero}

unfoldable pub downstream_resume_request_proto :
    Messages.DownstreamResumeRequest → Autogen.DownstreamResumeRequest
downstream_resume_request_proto m = record {
  request_id = m.request_id;
  stream_id = m.stream_id;
  desired_stream_id_alias = m.desired_stream_id_alias;
  extension_fields = to_empty_fields_proto m.extension_fields;
  resume_token = m.resume_token;
}

unfoldable pub downstream_close_request_proto :
    Messages.DownstreamCloseRequest → Autogen.DownstreamCloseRequest
downstream_close_request_proto m = record {
  request_id = m.request_id;
  stream_id = m.stream_id;
  extension_fields = to_empty_fields_proto m.extension_fields;
}

module _ {T P : Type 0} (o : Outside T P) where
  unfoldable pub downstream_open_request_proto :
      Messages.DownstreamOpenRequest → Outcome Autogen.DownstreamOpenRequest
  downstream_open_request_proto m = do
    q ← to_qos_proto o m.qos
    ok (record {
      request_id = m.request_id;
      desired_stream_id_alias = m.desired_stream_id_alias;
      downstream_filters = to_downstream_filters_proto m.downstream_filters;
      expiry_interval = o.seconds m.expiry_interval;
      data_id_aliases = to_data_id_aliases_proto m.data_id_aliases;
      qos = q;
      extension_fields = to_empty_fields_proto m.extension_fields;
      omit_empty_chunk = m.omit_empty_chunk;
    })

  unfoldable pub downstream_open_response_proto :
      Messages.DownstreamOpenResponse T → Outcome Autogen.DownstreamOpenResponse
  downstream_open_response_proto m = do
    code ← to_result_code_proto o m.result_code
    ok (record {
      request_id = m.request_id;
      assigned_stream_id = m.assigned_stream_id;
      server_time = or_unix_zero o m.server_time;
      result_code = code;
      result_string = m.result_string;
      extension_fields = to_empty_fields_proto m.extension_fields;
      resume_token = m.resume_token;
    })

  unfoldable pub downstream_resume_response_proto :
      Messages.DownstreamResumeResponse → Outcome Autogen.DownstreamResumeResponse
  downstream_resume_response_proto m = do
    code ← to_result_code_proto o m.result_code
    ok (record {
      request_id = m.request_id;
      result_code = code;
      result_string = m.result_string;
      extension_fields = to_empty_fields_proto m.extension_fields;
      resume_token = m.resume_token;
    })

  unfoldable pub downstream_close_response_proto :
      Messages.DownstreamCloseResponse → Outcome Autogen.DownstreamCloseResponse
  downstream_close_response_proto m = do
    code ← to_result_code_proto o m.result_code
    ok (record {
      request_id = m.request_id;
      result_code = code;
      result_string = m.result_string;
      extension_fields = to_empty_fields_proto m.extension_fields;
    })
