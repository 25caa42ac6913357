-- ===== src/Convert/ToProto/Control.antt =====
-- encoding/convert/wire_to_proto.go: connecting, calls and pings.
use iscp_go.Convert.Outcome.{Outcome, ok, ◌>>=◌}
use iscp_go.Convert.Messages
use iscp_go.Convert.Autogen
use iscp_go.Convert.Outside.{Outside}
use iscp_go.Convert.ToProto.Parts.{to_empty_fields_proto, to_result_code_proto}
use iscp_go.Convert.ToProto.Parts.{to_connect_request_extension_fields_proto}

unfoldable pub upstream_call_proto : Messages.UpstreamCall → Autogen.UpstreamCall
upstream_call_proto m = record {
  call_id = m.call_id;
  request_call_id = m.request_call_id;
  destination_node_id = m.destination_node_id;
  name = m.name;
  type_name = m.type_name;
  payload = m.payload;
  extension_fields = to_empty_fields_proto m.extension_fields;
}

unfoldable pub downstream_call_proto : Messages.DownstreamCall → Autogen.DownstreamCall
downstream_call_proto m = record {
  call_id = m.call_id;
  request_call_id = m.request_call_id;
  source_node_id = m.source_node_id;
  name = m.name;
  type_name = m.type_name;
  payload = m.payload;
  extension_fields = to_empty_fields_proto m.extension_fields;
}

unfoldable pub ping_proto : Messages.Ping → Autogen.Ping
ping_proto m = record {
  request_id = m.request_id;
  extension_fields = to_empty_fields_proto m.extension_fields;
}

unfoldable pub pong_proto : Messages.Pong → Autogen.Pong
pong_proto m = record {
  request_id = m.request_id;
  extension_fields = to_empty_fields_proto m.extension_fields;
}

module _ {T P : Type 0} (o : Outside T P) where
  unfoldable pub connect_request_proto : Messages.ConnectRequest → Autogen.ConnectRequest
  connect_request_proto m = record {
    request_id = m.request_id;
    protocol_version = m.protocol_version;
    node_id = m.node_id;
    ping_interval = o.seconds m.ping_interval;
    ping_timeout = o.seconds m.ping_timeout;
    extension_fields = to_connect_request_extension_fields_proto o m.extension_fields;
  }

  unfoldable pub connect_response_proto : Messages.ConnectResponse → Outcome Autogen.ConnectResponse
  connect_response_proto m = do
    code ← to_result_code_proto o m.result_code
    ok (record {
      request_id = m.request_id;
      protocol_version = m.protocol_version;
      result_code = code;
      result_string = m.result_string;
      extension_fields = to_empty_fields_proto m.extension_fields;
    })

  unfoldable pub disconnect_proto : Messages.Disconnect → Outcome Autogen.Disconnect
  disconnect_proto m = do
    code ← to_result_code_proto o m.result_code
    ok (record {
      result_code = code;
      result_string = m.result_string;
      extension_fields = to_empty_fields_proto m.extension_fields;
    })

  unfoldable pub upstream_call_ack_proto :
      Messages.UpstreamCallAck → Outcome Autogen.UpstreamCallAck
  upstream_call_ack_proto m = do
    code ← to_result_code_proto o m.result_code
    ok (record {
      call_id = m.call_id;
      result_code = code;
      result_string = m.result_string;
      extension_fields = to_empty_fields_proto m.extension_fields;
    })
