-- ===== src/Convert/RoundTrip/Control.antt =====
-- Messages for connecting, calls and pings: written and read back.
use iscp_go.Prelude.{◌≡◌}
use iscp_go.Convert.Outcome.{ok, ◌>>=◌}
use iscp_go.Convert.Messages
use iscp_go.Convert.Messages.{Message}
use iscp_go.Convert.Outside.{Outside, IsLawful}
use iscp_go.Convert.RoundTrip.Conditions.{CanTravel}
use iscp_go.Convert.RoundTrip.Parts.{empty_trip}
use iscp_go.Convert.RoundTrip.Checked.{code_trip, seconds_trip, connect_fields_trip}
use iscp_go.Convert.ToProto.Control.{upstream_call_proto, downstream_call_proto, ping_proto}
use iscp_go.Convert.ToProto.Control.{pong_proto, connect_request_proto, connect_response_proto}
use iscp_go.Convert.ToProto.Control.{disconnect_proto, upstream_call_ack_proto}
use iscp_go.Convert.ToWire.Control.{upstream_call_wire, downstream_call_wire, ping_wire}
use iscp_go.Convert.ToWire.Control.{pong_wire, connect_request_wire, connect_response_wire}
use iscp_go.Convert.ToWire.Control.{disconnect_wire, upstream_call_ack_wire}

pub upstream_call_trip :
    (m : Messages.UpstreamCall) → upstream_call_wire (upstream_call_proto m) ≡ m
unfolding upstream_call_proto upstream_call_wire
upstream_call_trip m = cc (empty_trip m.extension_fields)

pub downstream_call_trip :
    (m : Messages.DownstreamCall) → downstream_call_wire (downstream_call_proto m) ≡ m
unfolding downstream_call_proto downstream_call_wire
downstream_call_trip m = cc (empty_trip m.extension_fields)

pub ping_trip : (m : Messages.Ping) → ping_wire (ping_proto m) ≡ m
unfolding ping_proto ping_wire
ping_trip m = cc (empty_trip m.extension_fields)

pub pong_trip : (m : Messages.Pong) → pong_wire (pong_proto m) ≡ m
unfolding pong_proto pong_wire
pong_trip m = cc (empty_trip m.extension_fields)

module _ {T P : Type 0} {o : Outside T P} (l : IsLawful o) where
  pub connect_request_trip :
      (m : Messages.ConnectRequest)
      → CanTravel o (Message.connect_request m)
      → connect_request_wire o (connect_request_proto o m) ≡ ok m
  unfolding connect_request_proto connect_request_wire
  connect_request_trip m h = cc (
    seconds_trip l m.ping_interval h.0,
    seconds_trip l m.ping_timeout h.1,
    connect_fields_trip l m.extension_fields h.2,
  )

  pub connect_response_trip :
      (m : Messages.ConnectResponse)
      → CanTravel o (Message.connect_response m)
      → (connect_response_proto o m >>= connect_response_wire o) ≡ ok m
  unfolding connect_response_proto connect_response_wire
  connect_response_trip m h =
      let (p, w0, r0) = code_trip l m.result_code h in cc (w0, r0, empty_trip m.extension_fields)

  pub disconnect_trip :
      (m : Messages.Disconnect)
      → CanTravel o (Message.disconnect m)
      → (disconnect_proto o m >>= disconnect_wire o) ≡ ok m
  unfolding disconnect_proto disconnect_wire
  disconnect_trip m h =
      let (p, w0, r0) = code_trip l m.result_code h in cc (w0, r0, empty_trip m.extension_fields)

  pub upstream_call_ack_trip :
      (m : Messages.UpstreamCallAck)
      → CanTravel o (Message.upstream_call_ack m)
      → (upstream_call_ack_proto o m >>= upstream_call_ack_wire o) ≡ ok m
  unfolding upstream_call_ack_proto upstream_call_ack_wire
  upstream_call_ack_trip m h =
      let (p, w0, r0) = code_trip l m.result_code h in cc (w0, r0, empty_trip m.extension_fields)
