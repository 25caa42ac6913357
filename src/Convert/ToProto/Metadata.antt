-- ===== src/Convert/ToProto/Metadata.antt =====
-- encoding/convert/wire_to_proto.go: metadata.
use iscp_go.Prelude.{Option, some}
use iscp_go.Convert.Outcome.{Outcome, ok, malformed, ◌>>=◌}
use iscp_go.Convert.Messages.Parts
use iscp_go.Convert.Messages.Parts.{Metadata, SendableMetadata}
use iscp_go.Convert.Autogen
use iscp_go.Convert.Outside.{Outside}
use iscp_go.Convert.ToProto.Parts.{to_qos_proto, to_downstream_filters_proto}

unfoldable pub to_upstream_abnormal_close_proto :
    Parts.UpstreamAbnormalClose → Autogen.UpstreamAbnormalClose
to_upstream_abnormal_close_proto v = record { stream_id = v.stream_id; session_id = v.session_id }

unfoldable pub to_upstream_normal_close_proto :
    Parts.UpstreamNormalClose → Autogen.UpstreamNormalClose
to_upstream_normal_close_proto v = record {
  stream_id = v.stream_id;
  session_id = v.session_id;
  total_data_points = v.total_data_points;
  final_sequence_number = v.final_sequence_number;
}

unfoldable pub to_downstream_abnormal_close_proto :
    Parts.DownstreamAbnormalClose → Autogen.DownstreamAbnormalClose
to_downstream_abnormal_close_proto v = record { stream_id = v.stream_id }

unfoldable pub to_downstream_normal_close_proto :
    Parts.DownstreamNormalClose → Autogen.DownstreamNormalClose
to_downstream_normal_close_proto v = record { stream_id = v.stream_id }

module _ {T P : Type 0} (o : Outside T P) where
  unfoldable pub to_base_time_proto : Parts.BaseTime T → Autogen.BaseTime
  to_base_time_proto v = record {
    session_id = v.session_id;
    name = v.name;
    priority = v.priority;
    elapsed_time = v.elapsed_time;
    base_time = o.unix_nano v.base_time;
  }

  unfoldable pub to_upstream_open_proto : Parts.UpstreamOpen → Outcome Autogen.UpstreamOpen
  to_upstream_open_proto v = do
    q ← to_qos_proto o v.qos
    ok (record { stream_id = v.stream_id; session_id = v.session_id; qos = q })

  unfoldable pub to_upstream_resume_proto : Parts.UpstreamResume → Outcome Autogen.UpstreamResume
  to_upstream_resume_proto v = do
    q ← to_qos_proto o v.qos
    ok (record { stream_id = v.stream_id; session_id = v.session_id; qos = q })

  unfoldable pub to_downstream_open_proto : Parts.DownstreamOpen → Outcome Autogen.DownstreamOpen
  to_downstream_open_proto v = do
    q ← to_qos_proto o v.qos
    ok (record {
      stream_id = v.stream_id;
      downstream_filters = to_downstream_filters_proto v.downstream_filters;
      qos = q;
    })

  unfoldable pub to_downstream_resume_proto :
      Parts.DownstreamResume → Outcome Autogen.DownstreamResume
  to_downstream_resume_proto v = do
    q ← to_qos_proto o v.qos
    ok (record {
      stream_id = v.stream_id;
      downstream_filters = to_downstream_filters_proto v.downstream_filters;
      qos = q;
    })

  -- The switch of `toUpstreamMetadataProto`.
  unfoldable pub to_sendable_metadata_proto :
      SendableMetadata T → Outcome (Option Autogen.UpstreamMetadataCase)
  to_sendable_metadata_proto (SendableMetadata.base_time v) =
      ok (some (Autogen.UpstreamMetadataCase.base_time (to_base_time_proto v)))
  to_sendable_metadata_proto SendableMetadata.no_case = malformed

  -- The switch of `toDownstreamMetadataProto`.
  unfoldable pub to_metadata_proto : Metadata T → Outcome (Option Autogen.Metadata)
  to_metadata_proto (Metadata.base_time v) =
      ok (some (Autogen.Metadata.base_time (to_base_time_proto v)))
  to_metadata_proto (Metadata.upstream_open v) = do
    meta ← to_upstream_open_proto v
    ok (some (Autogen.Metadata.upstream_open meta))
  to_metadata_proto (Metadata.upstream_abnormal_close v) =
      ok (some (Autogen.Metadata.upstream_abnormal_close (to_upstream_abnormal_close_proto v)))
  to_metadata_proto (Metadata.upstream_resume v) = do
    meta ← to_upstream_resume_proto v
    ok (some (Autogen.Metadata.upstream_resume meta))
  to_metadata_proto (Metadata.upstream_normal_close v) =
      ok (some (Autogen.Metadata.upstream_normal_close (to_upstream_normal_close_proto v)))
  to_metadata_proto (Metadata.downstream_open v) = do
    meta ← to_downstream_open_proto v
    ok (some (Autogen.Metadata.downstream_open meta))
  to_metadata_proto (Metadata.downstream_abnormal_close v) =
      ok (some (Autogen.Metadata.downstream_abnormal_close (to_downstream_abnormal_close_proto v)))
  to_metadata_proto (Metadata.downstream_resume v) = do
    meta ← to_downstream_resume_proto v
    ok (some (Autogen.Metadata.downstream_resume meta))
  to_metadata_proto (Metadata.downstream_normal_close v) =
      ok (some (Autogen.Metadata.downstream_normal_close (to_downstream_normal_close_proto v)))
  to_metadata_proto Metadata.no_case = malformed
