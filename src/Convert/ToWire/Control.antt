-- ===== src/Convert/ToWire/Control.antt =====
-- encoding/convert/proto_to_wire.go: connecting, calls and pings.
use iscp_go.Convert.Outcome.{Outcome, ok, ◌>>=◌}
use iscp_go.Convert.Messages
use iscp_go.Convert.Autogen
use iscp_go.Convert.Outside.{Outside}
use iscp_go.Convert.ToWire.Parts.{from_seconds, to_empty_fields, to_result_code}
use iscp_go.Convert.ToWire.Parts.{to_connect_request_extension_fields}

unfoldable pub upstream_call_wire : Autogen.UpstreamCall → Messages.UpstreamCall
upstream_call_wire m = record {
  call_id = m.call_id;
  request_call_id = m.request_call_id;
  destination_node_id = m.destination_node_id;
  name = m.name;
  type_name = m.type_name;
  payload = m.payload;
  extension_fields = to_empty_fields m.extension_fields;
}

unfoldable pub downstream_call_wire : Autogen.DownstreamCall → Messages.DownstreamCall
downstream_call_wire m = record {
  call_id = m.call_id;
  request_call_id = m.request_call_id;
  source_node_id = m.source_node_id;
  name = m.name;
  type_name = m.type_name;
  payload = m.payload;
  extension_fields = to_empty_fields m.extension_fields;
}

unfoldable pub ping_wire : Autogen.Ping → Messages.Ping
ping_wire m = record {
  request_id = m.request_id;
  extension_fields = to_empty_fields m.extension_fields;
}

unfoldable pub pong_wire : Autogen.Pong → Messages.Pong
pong_wire m = record {
  request_id = m.request_id;
  extension_fields = to_empty_fields m.extension_fields;
}

module _ {T P : Type 0} (o : Outside T P) where
  unfoldable pub connect_request_wire : Autogen.ConnectRequest → Outcome Messages.ConnectRequest
  connect_request_wire m = do
    ext ← to_connect_request_extension_fields o m.extension_fields
    ok (record {
      request_id = m.request_id;
      protocol_version = m.protocol_version;
      node_id = m.node_id;
      ping_interval = from_seconds m.ping_interval;
      ping_timeout = from_seconds m.ping_timeout;
      extension_fields = ext;
    })

  unfoldable pub connect_response_wire : Autogen.ConnectResponse → Outcome Messages.ConnectResponse
  connect_response_wire m = do
    code ← to_result_code o m.result_code
    ok (record {
      request_id = m.request_id;
      protocol_version = m.protocol_version;
      result_code = code;
      result_string = m.result_string;
      extension_fields = to_empty_fields m.extension_fields;
    })

  unfoldable pub disconnect_wire : Autogen.Disconnect → Outcome Messages.Disconnect
  disconnect_wire m = do
    code ← to_result_code o m.result_code
    ok (record {
      result_code = code;
      result_string = m.result_string;
      extension_fields = to_empty_fields m.extension_fields;
    })

  unfoldable pub upstream_call_ack_wire : Autogen.UpstreamCallAck → Outcome Messages.UpstreamCallAck
  upstream_call_ack_wire m = do
    code ← to_result_code o m.result_code
    ok (record {
      call_id = m.call_id;
      result_code = code;
      result_string = m.result_string;
      extension_fields = to_empty_fields m.extension_fields;
    })
