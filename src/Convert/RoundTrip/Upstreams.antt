-- ===== src/Convert/RoundTrip/Upstreams.antt =====
-- Messages for opening, resuming and closing upstreams: written and read back.
use iscp_go.Prelude.{◌≡◌}
use iscp_go.Convert.Outcome.{ok, ◌>>=◌}
use iscp_go.Convert.Messages
use iscp_go.Convert.Messages.{Message}
use iscp_go.Convert.Outside.{Outside, IsLawful}
use iscp_go.Convert.RoundTrip.Conditions.{CanTravel}
use iscp_go.Convert.RoundTrip.Parts.{ids_trip, aliases_trip, empty_trip, open_fields_trip}
use iscp_go.Convert.RoundTrip.Parts.{close_fields_trip}
use iscp_go.Convert.RoundTrip.Checked.{code_trip, qos_trip, uuid_trip, seconds_trip}
use iscp_go.Convert.RoundTrip.Checked.{milliseconds_trip, time_trip}
use iscp_go.Convert.ToProto.Upstreams.{upstream_resume_request_proto}
use iscp_go.Convert.ToProto.Upstreams.{upstream_close_request_proto}
use iscp_go.Convert.ToProto.Upstreams.{upstream_open_request_proto}
use iscp_go.Convert.ToProto.Upstreams.{upstream_open_response_proto}
use iscp_go.Convert.ToProto.Upstreams.{upstream_resume_response_proto}
use iscp_go.Convert.ToProto.Upstreams.{upstream_close_response_proto}
use iscp_go.Convert.ToWire.Upstreams.{upstream_open_request_wire, upstream_open_response_wire}
use iscp_go.Convert.ToWire.Upstreams.{upstream_resume_request_wire}
use iscp_go.Convert.ToWire.Upstreams.{upstream_resume_response_wire}
use iscp_go.Convert.ToWire.Upstreams.{upstream_close_request_wire}
use iscp_go.Convert.ToWire.Upstreams.{upstream_close_response_wire}

module _ {T P : Type 0} {o : Outside T P} (l : IsLawful o) where
  pub upstream_open_request_trip :
      (m : Messages.UpstreamOpenRequest)
      → CanTravel o (Message.upstream_open_request m)
      → (upstream_open_request_proto o m >>= upstream_open_request_wire o) ≡ ok m
  unfolding upstream_open_request_proto upstream_open_request_wire
  upstream_open_request_trip m h =
      let (p, w0, r0) = qos_trip l m.qos h.2 in
      cc (
        milliseconds_trip l m.ack_interval h.0,
        seconds_trip l m.expiry_interval h.1,
        ids_trip m.data_ids,
        w0,
        r0,
        open_fields_trip m.extension_fields,
      )

  pub upstream_open_response_trip :
      (m : Messages.UpstreamOpenResponse T)
      → CanTravel o (Message.upstream_open_response m)
      → (upstream_open_response_proto o m >>= upstream_open_response_wire o) ≡ ok m
  unfolding upstream_open_response_proto upstream_open_response_wire
  upstream_open_response_trip m h =
      let (p, w0, r0) = code_trip l m.result_code h.2 in
      cc (
        uuid_trip l m.assigned_stream_id h.0,
        aliases_trip m.data_id_aliases,
        time_trip l m.server_time h.1,
        w0,
        r0,
        empty_trip m.extension_fields,
      )

  pub upstream_resume_request_trip :
      (m : Messages.UpstreamResumeRequest)
      → CanTravel o (Message.upstream_resume_request m)
      → upstream_resume_request_wire o (upstream_resume_request_proto m) ≡ ok m
  unfolding upstream_resume_request_proto upstream_resume_request_wire
  upstream_resume_request_trip m h = cc (uuid_trip l m.stream_id h, empty_trip m.extension_fields)

  pub upstream_resume_response_trip :
      (m : Messages.UpstreamResumeResponse)
      → CanTravel o (Message.upstream_resume_response m)
      → (upstream_resume_response_proto o m >>= upstream_resume_response_wire o) ≡ ok m
  unfolding upstream_resume_response_proto upstream_resume_response_wire
  upstream_resume_response_trip m h =
      let (p, w0, r0) = code_trip l m.result_code h in cc (w0, r0, empty_trip m.extension_fields)

  pub upstream_close_request_trip :
      (m : Messages.UpstreamCloseRequest)
      → CanTravel o (Message.upstream_close_request m)
      → upstream_close_request_wire o (upstream_close_request_proto m) ≡ ok m
  unfolding upstream_close_request_proto upstream_close_request_wire
  upstream_close_request_trip m h =
      cc (uuid_trip l m.stream_id h, close_fields_trip m.extension_fields)

  pub upstream_close_response_trip :
      (m : Messages.UpstreamCloseResponse)
      → CanTravel o (Message.upstream_close_response m)
      → (upstream_close_response_proto o m >>= upstream_close_response_wire o) ≡ ok m
  unfolding upstream_close_response_proto upstream_close_response_wire
  upstream_close_response_trip m h =
      let (p, w0, r0) = code_trip l m.result_code h in cc (w0, r0, empty_trip m.extension_fields)
