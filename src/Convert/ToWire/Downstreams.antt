-- ===== src/Convert/ToWire/Downstreams.antt =====
-- encoding/convert/proto_to_wire.go: opening, resuming and closing downstreams.
use iscp_go.Convert.Outcome.{Outcome, ok, ◌>>=◌}
use iscp_go.Convert.Messages
use iscp_go.Convert.Autogen
use iscp_go.Convert.Outside.{Outside}
use iscp_go.Convert.ToWire.Parts.{from_seconds, to_data_id_aliases, to_downstream_filters}
use iscp_go.Convert.ToWire.Parts.{to_empty_fields, to_result_code, to_qos, to_uuid}

module _ {T P : Type 0} (o : Outside T P) where
  unfoldable pub downstream_open_request_wire :
      Autogen.DownstreamOpenRequest → Outcome Messages.DownstreamOpenRequest
  downstream_open_request_wire m = do
    q ← to_qos o m.qos
    ok (record {
      request_id = m.request_id;
      desired_stream_id_alias = m.desired_stream_id_alias;
      downstream_filters = to_downstream_filters m.downstream_filters;
      expiry_interval = from_seconds m.expiry_interval;
      data_id_aliases = to_data_id_aliases m.data_id_aliases;
      qos = q;
      extension_fields = to_empty_fields m.extension_fields;
      omit_empty_chunk = m.omit_empty_chunk;
    })

  unfoldable pub downstream_open_response_wire :
      Autogen.DownstreamOpenResponse → Outcome (Messages.DownstreamOpenResponse T)
  downstream_open_response_wire m = do
    code ← to_result_code o m.result_code
    sid ← to_uuid o m.assigned_stream_id
    ok (record {
      request_id = m.request_id;
      assigned_stream_id = sid;
      server_time = o.unix m.server_time;
      result_code = code;
      result_string = m.result_string;
      extension_fields = to_empty_fields m.extension_fields;
      resume_token = m.resume_token;
    })

  unfoldable pub downstream_resume_request_wire :
      Autogen.DownstreamResumeRequest → Outcome Messages.DownstreamResumeRequest
  downstream_resume_request_wire m = do
    sid ← to_uuid o m.stream_id
    ok (record {
      request_id = m.request_id;
      stream_id = sid;
      desired_stream_id_alias = m.desired_stream_id_alias;
      extension_fields = to_empty_fields m.extension_fields;
      resume_token = m.resume_token;
    })

  unfoldable pub downstream_resume_response_wire :
      Autogen.DownstreamResumeResponse → Outcome Messages.DownstreamResumeResponse
  downstream_resume_response_wire m = do
    code ← to_result_code o m.result_code
    ok (record {
      request_id = m.request_id;
      result_code = code;
      result_string = m.result_string;
      extension_fields = to_empty_fields m.extension_fields;
      resume_token = m.resume_token;
    })

  unfoldable pub downstream_close_request_wire :
      Autogen.DownstreamCloseRequest → Outcome Messages.DownstreamCloseRequest
  downstream_close_request_wire m = do
    sid ← to_uuid o m.stream_id
    ok (record {
      request_id = m.request_id;
      stream_id = sid;
      extension_fields = to_empty_fields m.extension_fields;
    })

  unfoldable pub downstream_close_response_wire :
      Autogen.DownstreamCloseResponse → Outcome Messages.DownstreamCloseResponse
  downstream_close_response_wire m = do
    code ← to_result_code o m.result_code
    ok (record {
      request_id = m.request_id;
      result_code = code;
      result_string = m.result_string;
      extension_fields = to_empty_fields m.extension_fields;
    })
