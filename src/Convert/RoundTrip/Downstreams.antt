-- ===== src/Convert/RoundTrip/Downstreams.antt =====
-- Messages for opening, resuming and closing downstreams: written and read back.
use iscp_go.Prelude.{◌≡◌}
use iscp_go.Convert.Outcome.{ok, ◌>>=◌}
use iscp_go.Convert.Messages
use iscp_go.Convert.Messages.{Message}
use iscp_go.Convert.Outside.{Outside, IsLawful}
use iscp_go.Convert.RoundTrip.Conditions.{CanTravel}
use iscp_go.Convert.RoundTrip.Parts.{aliases_trip, filters_trip, empty_trip}
use iscp_go.Convert.RoundTrip.Checked.{code_trip, qos_trip, uuid_trip, seconds_trip, time_trip}
use iscp_go.Convert.ToProto.Downstreams.{downstream_resume_request_proto}
use iscp_go.Convert.ToProto.Downstreams.{downstream_close_request_proto}
use iscp_go.Convert.ToProto.Downstreams.{downstream_open_request_proto}
use iscp_go.Convert.ToProto.Downstreams.{downstream_open_response_proto}
use iscp_go.Convert.ToProto.Downstreams.{downstream_resume_response_proto}
use iscp_go.Convert.ToProto.Downstreams.{downstream_close_response_proto}
use iscp_go.Convert.ToWire.Downstreams.{downstream_open_request_wire}
use iscp_go.Convert.ToWire.Downstreams.{downstream_open_response_wire}
use iscp_go.Convert.ToWire.Downstreams.{downstream_resume_request_wire}
use iscp_go.Convert.ToWire.Downstreams.{downstream_resume_response_wire}
use iscp_go.Convert.ToWire.Downstreams.{downstream_close_request_wire}
use iscp_go.Convert.ToWire.Downstreams.{downstream_close_response_wire}

module _ {T P : Type 0} {o : Outside T P} (l : IsLawful o) where
  pub downstream_open_request_trip :
      (m : Messages.DownstreamOpenRequest)
      → CanTravel o (Message.downstream_open_request m)
      → (downstream_open_request_proto o m >>= downstream_open_request_wire o) ≡ ok m
  unfolding downstream_open_request_proto downstream_open_request_wire
  downstream_open_request_trip m h =
      let (p, w0, r0) = qos_trip l m.qos h.1 in
      cc (
        filters_trip m.downstream_filters,
        seconds_trip l m.expiry_interval h.0,
        aliases_trip m.data_id_aliases,
        w0,
        r0,
        empty_trip m.extension_fields,
      )

  pub downstream_open_response_trip :
      (m : Messages.DownstreamOpenResponse T)
      → CanTravel o (Message.downstream_open_response m)
      → (downstream_open_response_proto o m >>= downstream_open_response_wire o) ≡ ok m
  unfolding downstream_open_response_proto downstream_open_response_wire
  downstream_open_response_trip m h =
      let (p, w0, r0) = code_trip l m.result_code h.2 in
      cc (
        uuid_trip l m.assigned_stream_id h.0,
        time_trip l m.server_time h.1,
        w0,
        r0,
        empty_trip m.extension_fields,
      )

  pub downstream_resume_request_trip :
      (m : Messages.DownstreamResumeRequest)
      → CanTravel o (Message.downstream_resume_request m)
      → downstream_resume_request_wire o (downstream_resume_request_proto m) ≡ ok m
  unfolding downstream_resume_request_proto downstream_resume_request_wire
  downstream_resume_request_trip m h = cc (uuid_trip l m.stream_id h, empty_trip m.extension_fields)

  pub downstream_resume_response_trip :
      (m : Messages.DownstreamResumeResponse)
      → CanTravel o (Message.downstream_resume_response m)
      → (downstream_resume_response_proto o m >>= downstream_resume_response_wire o) ≡ ok m
  unfolding downstream_resume_response_proto downstream_resume_response_wire
  downstream_resume_response_trip m h =
      let (p, w0, r0) = code_trip l m.result_code h in cc (w0, r0, empty_trip m.extension_fields)

  pub downstream_close_request_trip :
      (m : Messages.DownstreamCloseRequest)
      → CanTravel o (Message.downstream_close_request m)
      → downstream_close_request_wire o (downstream_close_request_proto m) ≡ ok m
  unfolding downstream_close_request_proto downstream_close_request_wire
  downstream_close_request_trip m h = cc (uuid_trip l m.stream_id h, empty_trip m.extension_fields)

  pub downstream_close_response_trip :
      (m : Messages.DownstreamCloseResponse)
      → CanTravel o (Message.downstream_close_response m)
      → (downstream_close_response_proto o m >>= downstream_close_response_wire o) ≡ ok m
  unfolding downstream_close_response_proto downstream_close_response_wire
  downstream_close_response_trip m h =
      let (p, w0, r0) = code_trip l m.result_code h in cc (w0, r0, empty_trip m.extension_fields)
