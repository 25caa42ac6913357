-- ===== src/Convert/ToWire/Upstreams.antt =====
-- encoding/convert/proto_to_wire.go: opening, resuming and closing upstreams.
use iscp_go.Convert.Outcome.{Outcome, ok, ◌>>=◌}
use iscp_go.Convert.Messages
use iscp_go.Convert.Autogen
use iscp_go.Convert.Outside.{Outside}
use iscp_go.Convert.ToWire.Parts.{from_seconds, from_milliseconds, to_data_ids}
use iscp_go.Convert.ToWire.Parts.{to_data_id_aliases, to_empty_fields}
use iscp_go.Convert.ToWire.Parts.{to_upstream_open_request_extension_fields}
use iscp_go.Convert.ToWire.Parts.{to_upstream_close_request_extension_fields, to_result_code}
use iscp_go.Convert.ToWire.Parts.{to_qos, to_uuid}

module _ {T P : Type 0} (o : Outside T P) where
  unfoldable pub upstream_open_request_wire :
      Autogen.UpstreamOpenRequest → Outcome Messages.UpstreamOpenRequest
  upstream_open_request_wire m = do
    q ← to_qos o m.qos
    ok (record {
      request_id = m.request_id;
      session_id = m.session_id;
      ack_interval = from_milliseconds m.ack_interval;
      expiry_interval = from_seconds m.expiry_interval;
      data_ids = to_data_ids m.data_ids;
      qos = q;
      extension_fields = to_upstream_open_request_extension_fields m.extension_fields;
    })

  unfoldable pub upstream_open_response_wire :
      Autogen.UpstreamOpenResponse → Outcome (Messages.UpstreamOpenResponse T)
  upstream_open_response_wire m = do
    code ← to_result_code o m.result_code
    sid ← to_uuid o m.assigned_stream_id
    ok (record {
      request_id = m.request_id;
      assigned_stream_id = sid;
      assigned_stream_id_alias = m.assigned_stream_id_alias;
      data_id_aliases = to_data_id_aliases m.data_id_aliases;
      server_time = o.unix m.server_time;
      result_code = code;
      result_string = m.result_string;
      extension_fields = to_empty_fields m.extension_fields;
      resume_token = m.resume_token;
    })

  unfoldable pub upstream_resume_request_wire :
      Autogen.UpstreamResumeRequest → Outcome Messages.UpstreamResumeRequest
  upstream_resume_request_wire m = do
    sid ← to_uuid o m.stream_id
    ok (record {
      request_id = m.request_id;
      stream_id = sid;
      extension_fields = to_empty_fields m.extension_fields;
      resume_token = m.resume_token;
    })

  unfoldable pub upstream_resume_response_wire :
      Autogen.UpstreamResumeResponse → Outcome Messages.UpstreamResumeResponse
  upstream_resume_response_wire m = do
    code ← to_result_code o m.result_code
    ok (record {
      request_id = m.request_id;
      assigned_stream_id_alias = m.assigned_stream_id_alias;
      result_code = code;
      result_string = m.result_string;
      extension_fields = to_empty_fields m.extension_fields;
      resume_token = m.resume_token;
    })

  unfoldable pub upstream_close_request_wire :
      Autogen.UpstreamCloseRequest → Outcome Messages.UpstreamCloseRequest
  upstream_close_request_wire m = do
    sid ← to_uuid o m.stream_id
    ok (record {
      request_id = m.request_id;
      stream_id = sid;
      total_data_points = m.total_data_points;
      final_sequence_number = m.final_sequence_number;
      extension_fields = to_upstream_close_request_extension_fields m.extension_fields;
    })

  unfoldable pub upstream_close_response_wire :
      Autogen.UpstreamCloseResponse → Outcome Messages.UpstreamCloseResponse
  upstream_close_response_wire m = do
    code ← to_result_code o m.result_code
    ok (record {
      request_id = m.request_id;
      result_code = code;
      result_string = m.result_string;
      extension_fields = to_empty_fields m.extension_fields;
    })
