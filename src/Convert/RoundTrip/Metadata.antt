-- ===== src/Convert/RoundTrip/Metadata.antt =====
-- Metadata, written and read back.
use iscp_go.Prelude.{◌≡◌, refl, ap, ◌%◌, ◌^◌, some, arith}
use iscp_go.Convert.Outcome.{ok}
use iscp_go.Convert.Messages.Parts
use iscp_go.Convert.Messages.Parts.{Metadata, SendableMetadata}
use iscp_go.Convert.Autogen
use iscp_go.Convert.Outside.{Outside, IsLawful}
use iscp_go.Convert.ToProto.Parts.{to_downstream_filters_proto}
use iscp_go.Convert.RoundTrip.Carried.{CarriedQos, IsUuid, CarriedBaseTime, CarriedSendable}
use iscp_go.Convert.RoundTrip.Carried.{CarriedMetadata}
use iscp_go.Convert.RoundTrip.Parts.{filters_trip}
use iscp_go.Convert.RoundTrip.Checked.{ComesBack, qos_trip, uuid_trip, nano_trip}
use iscp_go.Convert.ToProto.Metadata.{to_upstream_abnormal_close_proto}
use iscp_go.Convert.ToProto.Metadata.{to_upstream_normal_close_proto}
use iscp_go.Convert.ToProto.Metadata.{to_downstream_abnormal_close_proto}
use iscp_go.Convert.ToProto.Metadata.{to_downstream_normal_close_proto, to_base_time_proto}
use iscp_go.Convert.ToProto.Metadata.{to_upstream_open_proto, to_upstream_resume_proto}
use iscp_go.Convert.ToProto.Metadata.{to_downstream_open_proto, to_downstream_resume_proto}
use iscp_go.Convert.ToProto.Metadata.{to_sendable_metadata_proto, to_metadata_proto}
use iscp_go.Convert.ToWire.Metadata.{to_base_time, to_upstream_open}
use iscp_go.Convert.ToWire.Metadata.{to_upstream_abnormal_close, to_upstream_resume}
use iscp_go.Convert.ToWire.Metadata.{to_upstream_normal_close, to_downstream_open}
use iscp_go.Convert.ToWire.Metadata.{to_downstream_abnormal_close, to_downstream_resume}
use iscp_go.Convert.ToWire.Metadata.{to_downstream_normal_close, to_metadata_upstream}
use iscp_go.Convert.ToWire.Metadata.{to_downstream_metadata}

module _ {T P : Type 0} {o : Outside T P} (l : IsLawful o) where
  base_time_trip :
      (v : Parts.BaseTime T) → CarriedBaseTime o v → to_base_time o (to_base_time_proto o v) ≡ v
  unfolding to_base_time to_base_time_proto
  base_time_trip v h =
      let small : v.priority % 2 ^ 8 ≡ v.priority = omega arith in
      λ i. record v { priority = small i; base_time = nano_trip l v.base_time h.1 i }

  pub sendable_trip :
      (m : SendableMetadata T)
      → CarriedSendable o m
      → ComesBack (to_sendable_metadata_proto o) (to_metadata_upstream o) m
  unfolding to_sendable_metadata_proto to_metadata_upstream
  sendable_trip (SendableMetadata.base_time v) h =
      (_, refl, ap (λ w. ok (SendableMetadata.base_time w)) (base_time_trip v h))
  sendable_trip SendableMetadata.no_case h = elim h [ ]

  upstream_open_trip :
      (v : Parts.UpstreamOpen)
      → CarriedQos v.qos
      → IsUuid v.stream_id
      → ComesBack (to_upstream_open_proto o) (to_upstream_open o) v
  unfolding to_upstream_open_proto to_upstream_open
  upstream_open_trip v h u =
      let (k, w, r) = qos_trip l v.qos h in
      (
        record { stream_id = v.stream_id; session_id = v.session_id; qos = k },
        cc w,
        cc (r, uuid_trip l v.stream_id u),
      )

  upstream_resume_trip :
      (v : Parts.UpstreamResume)
      → CarriedQos v.qos
      → IsUuid v.stream_id
      → ComesBack (to_upstream_resume_proto o) (to_upstream_resume o) v
  unfolding to_upstream_resume_proto to_upstream_resume
  upstream_resume_trip v h u =
      let (k, w, r) = qos_trip l v.qos h in
      (
        record { stream_id = v.stream_id; session_id = v.session_id; qos = k },
        cc w,
        cc (r, uuid_trip l v.stream_id u),
      )

  downstream_open_trip :
      (v : Parts.DownstreamOpen)
      → CarriedQos v.qos
      → IsUuid v.stream_id
      → ComesBack (to_downstream_open_proto o) (to_downstream_open o) v
  unfolding to_downstream_open_proto to_downstream_open
  downstream_open_trip v h u =
      let (k, w, r) = qos_trip l v.qos h in
      (
        record {
          stream_id = v.stream_id;
          downstream_filters = to_downstream_filters_proto v.downstream_filters;
          qos = k;
        },
        cc w,
        cc (r, uuid_trip l v.stream_id u, filters_trip v.downstream_filters),
      )

  downstream_resume_trip :
      (v : Parts.DownstreamResume)
      → CarriedQos v.qos
      → IsUuid v.stream_id
      → ComesBack (to_downstream_resume_proto o) (to_downstream_resume o) v
  unfolding to_downstream_resume_proto to_downstream_resume
  downstream_resume_trip v h u =
      let (k, w, r) = qos_trip l v.qos h in
      (
        record {
          stream_id = v.stream_id;
          downstream_filters = to_downstream_filters_proto v.downstream_filters;
          qos = k;
        },
        cc w,
        cc (r, uuid_trip l v.stream_id u, filters_trip v.downstream_filters),
      )

  pub metadata_trip :
      (m : Metadata T)
      → CarriedMetadata o m
      → ComesBack (to_metadata_proto o) (to_downstream_metadata o) m
  unfolding to_metadata_proto to_downstream_metadata to_upstream_abnormal_close_proto
      to_upstream_abnormal_close to_upstream_normal_close_proto to_upstream_normal_close
      to_downstream_abnormal_close_proto to_downstream_abnormal_close
      to_downstream_normal_close_proto to_downstream_normal_close
  metadata_trip (Metadata.base_time v) h =
      (_, refl, ap (λ w. ok (Metadata.base_time w)) (base_time_trip v h))
  metadata_trip (Metadata.upstream_open v) h =
      let (p, w, r) = upstream_open_trip v h.0 h.1 in
      (some (Autogen.Metadata.upstream_open p), cc w, cc r)
  metadata_trip (Metadata.upstream_abnormal_close v) h = (
    some (Autogen.Metadata.upstream_abnormal_close (to_upstream_abnormal_close_proto v)),
    refl,
    cc (uuid_trip l v.stream_id h),
  )
  metadata_trip (Metadata.upstream_resume v) h =
      let (p, w, r) = upstream_resume_trip v h.0 h.1 in
      (some (Autogen.Metadata.upstream_resume p), cc w, cc r)
  metadata_trip (Metadata.upstream_normal_close v) h = (
    some (Autogen.Metadata.upstream_normal_close (to_upstream_normal_close_proto v)),
    refl,
    cc (uuid_trip l v.stream_id h),
  )
  metadata_trip (Metadata.downstream_open v) h =
      let (p, w, r) = downstream_open_trip v h.0 h.1 in
      (some (Autogen.Metadata.downstream_open p), cc w, cc r)
  metadata_trip (Metadata.downstream_abnormal_close v) h = (
    some (Autogen.Metadata.downstream_abnormal_close (to_downstream_abnormal_close_proto v)),
    refl,
    cc (uuid_trip l v.stream_id h),
  )
  metadata_trip (Metadata.downstream_resume v) h =
      let (p, w, r) = downstream_resume_trip v h.0 h.1 in
      (some (Autogen.Metadata.downstream_resume p), cc w, cc r)
  metadata_trip (Metadata.downstream_normal_close v) h = (
    some (Autogen.Metadata.downstream_normal_close (to_downstream_normal_close_proto v)),
    refl,
    cc (uuid_trip l v.stream_id h),
  )
  metadata_trip Metadata.no_case h = elim h [ ]
