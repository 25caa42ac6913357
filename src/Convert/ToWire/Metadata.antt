-- ===== src/Convert/ToWire/Metadata.antt =====
-- encoding/convert/proto_to_wire.go: metadata.
use iscp_go.Prelude.{◌%◌, ◌^◌, Option, none, some}
use iscp_go.Convert.Outcome.{Outcome, ok, malformed, ◌>>=◌}
use iscp_go.Convert.Messages.Parts
use iscp_go.Convert.Messages.Parts.{Metadata, SendableMetadata}
use iscp_go.Convert.Autogen
use iscp_go.Convert.Outside.{Outside}
use iscp_go.Convert.ToWire.Parts.{to_qos, to_uuid, to_downstream_filters}

module _ {T P : Type 0} (o : Outside T P) where
  -- The priority becomes a `uint8`.
  unfoldable pub to_base_time : Autogen.BaseTime → Parts.BaseTime T
  to_base_time v = record {
    session_id = v.session_id;
    name = v.name;
    priority = v.priority % 2 ^ 8;
    elapsed_time = v.elapsed_time;
    base_time = o.unix v.base_time;
  }

  unfoldable pub to_upstream_open : Autogen.UpstreamOpen → Outcome Parts.UpstreamOpen
  to_upstream_open v = do
    q ← to_qos o v.qos
    sid ← to_uuid o v.stream_id
    ok (record { stream_id = sid; session_id = v.session_id; qos = q })

  unfoldable pub to_upstream_abnormal_close :
      Autogen.UpstreamAbnormalClose → Outcome Parts.UpstreamAbnormalClose
  to_upstream_abnormal_close v = do
    sid ← to_uuid o v.stream_id
    ok (record { stream_id = sid; session_id = v.session_id })

  unfoldable pub to_upstream_resume : Autogen.UpstreamResume → Outcome Parts.UpstreamResume
  to_upstream_resume v = do
    sid ← to_uuid o v.stream_id
    q ← to_qos o v.qos
    ok (record { stream_id = sid; session_id = v.session_id; qos = q })

  unfoldable pub to_upstream_normal_close :
      Autogen.UpstreamNormalClose → Outcome Parts.UpstreamNormalClose
  to_upstream_normal_close v = do
    sid ← to_uuid o v.stream_id
    ok (record {
      stream_id = sid;
      session_id = v.session_id;
      total_data_points = v.total_data_points;
      final_sequence_number = v.final_sequence_number;
    })

  unfoldable pub to_downstream_open : Autogen.DownstreamOpen → Outcome Parts.DownstreamOpen
  to_downstream_open v = do
    q ← to_qos o v.qos
    sid ← to_uuid o v.stream_id
    ok (record {
      stream_id = sid;
      downstream_filters = to_downstream_filters v.downstream_filters;
      qos = q;
    })

  unfoldable pub to_downstream_abnormal_close :
      Autogen.DownstreamAbnormalClose → Outcome Parts.DownstreamAbnormalClose
  to_downstream_abnormal_close v = do sid ← to_uuid o v.stream_id; ok (record { stream_id = sid })

  unfoldable pub to_downstream_resume : Autogen.DownstreamResume → Outcome Parts.DownstreamResume
  to_downstream_resume v = do
    sid ← to_uuid o v.stream_id
    q ← to_qos o v.qos
    ok (record {
      stream_id = sid;
      downstream_filters = to_downstream_filters v.downstream_filters;
      qos = q;
    })

  unfoldable pub to_downstream_normal_close :
      Autogen.DownstreamNormalClose → Outcome Parts.DownstreamNormalClose
  to_downstream_normal_close v = do sid ← to_uuid o v.stream_id; ok (record { stream_id = sid })

  unfoldable pub to_metadata_upstream :
      Option Autogen.UpstreamMetadataCase → Outcome (SendableMetadata T)
  to_metadata_upstream (some (Autogen.UpstreamMetadataCase.base_time v)) =
      ok (SendableMetadata.base_time (to_base_time v))
  to_metadata_upstream none = malformed

  unfoldable pub to_downstream_metadata : Option Autogen.Metadata → Outcome (Metadata T)
  to_downstream_metadata (some (Autogen.Metadata.base_time v)) =
      ok (Metadata.base_time (to_base_time v))
  to_downstream_metadata (some (Autogen.Metadata.upstream_open v)) = do
    meta ← to_upstream_open v
    ok (Metadata.upstream_open meta)
  to_downstream_metadata (some (Autogen.Metadata.upstream_abnormal_close v)) = do
    meta ← to_upstream_abnormal_close v
    ok (Metadata.upstream_abnormal_close meta)
  to_downstream_metadata (some (Autogen.Metadata.upstream_resume v)) = do
    meta ← to_upstream_resume v
    ok (Metadata.upstream_resume meta)
  to_downstream_metadata (some (Autogen.Metadata.upstream_normal_close v)) = do
    meta ← to_upstream_normal_close v
    ok (Metadata.upstream_normal_close meta)
  to_downstream_metadata (some (Autogen.Metadata.downstream_open v)) = do
    meta ← to_downstream_open v
    ok (Metadata.downstream_open meta)
  to_downstream_metadata (some (Autogen.Metadata.downstream_abnormal_close v)) = do
    meta ← to_downstream_abnormal_close v
    ok (Metadata.downstream_abnormal_close meta)
  to_downstream_metadata (some (Autogen.Metadata.downstream_resume v)) = do
    meta ← to_downstream_resume v
    ok (Metadata.downstream_resume meta)
  to_downstream_metadata (some (Autogen.Metadata.downstream_normal_close v)) = do
    meta ← to_downstream_normal_close v
    ok (Metadata.downstream_normal_close meta)
  to_downstream_metadata none = malformed
