-- ===== src/Convert/Errors/Accepting.antt =====
-- encoding/convert/wire_to_proto.go: the parts of messages, written or refused.
use iscp_go.Prelude.{Bool, true, false, ◌&&◌, Option, none, some, List, [], ◌∷◌}
use iscp_go.Convert.Outcome.{Outcome, ok, malformed, ◌>>=◌, each}
use iscp_go.Convert.Messages.Parts
use iscp_go.Convert.Messages.Parts.{Metadata, SendableMetadata, info, alias, alias_pointer}
use iscp_go.Convert.Outside.{Outside}
use iscp_go.Convert.Codes.{ResultCode, Qos, code_name, qos_name, other, unlisted}
use iscp_go.Convert.Errors.Sendable.{all, known_code, known_qos, known_upstream}
use iscp_go.Convert.Errors.Sendable.{known_sendable, known_metadata}
use iscp_go.Convert.ToProto.Parts.{to_upstream_or_alias_proto, to_data_point_group_proto}
use iscp_go.Convert.ToProto.Parts.{to_data_point_groups_proto, to_stream_chunk_proto}
use iscp_go.Convert.ToProto.Parts.{to_result_code_proto, to_qos_proto}
use iscp_go.Convert.ToProto.Metadata.{to_upstream_open_proto, to_upstream_resume_proto}
use iscp_go.Convert.ToProto.Metadata.{to_downstream_open_proto, to_downstream_resume_proto}
use iscp_go.Convert.ToProto.Metadata.{to_sendable_metadata_proto, to_metadata_proto}

-- Written with a value, or refused as malformed.
pub data Decides {ℓ} {A : Type ℓ} : Bool → Outcome A → Type ℓ where
  written : (p : A) → Decides true (ok p)
  refused : Decides false malformed

pub accepts-then {ℓ κ} :
    {A : Type ℓ} {B : Type κ} {b : Bool} {x : Outcome A} (f : A → B)
    → Decides b x
    → Decides b (x >>= λ a. ok (f a))
accepts-then f (written p) = written (f p)
accepts-then f refused = refused

pub accepts-next {ℓ κ} :
    {A : Type ℓ} {B : Type κ} {b : Bool} {x : Outcome A} (f : A → Outcome B)
    → Decides true x
    → ((a : A) → Decides b (f a))
    → Decides b (x >>= f)
accepts-next f (written p) h = h p

accepts_both {ℓ κ} :
    {A : Type ℓ} {B : Type κ} {b c : Bool} {x : Outcome A} {xs : Outcome (List B)} (f : A → B)
    → Decides b x
    → Decides c xs
    → Decides (b && c) (x >>= λ y. xs >>= λ ys. ok (f y ∷ ys))
accepts_both f (written p) (written q) = written (f p ∷ q)
accepts_both f (written p) refused = refused
accepts_both f refused t = refused

pub each_accepts {ℓ κ} :
    {A : Type ℓ} {B : Type κ} (known : A → Bool) (f : A → Outcome B)
    → ((x : A) → Decides (known x) (f x))
    → (l : List A) → Decides (all known l) (each f l)
unfolding each
each_accepts known f h [] = written []
each_accepts known f h (x ∷ xs) = accepts_both (λ y. y) (h x) (each_accepts known f h xs)

groups_accept :
    (gs : List (Option Parts.DataPointGroup)) → Decides true (each to_data_point_group_proto gs)
unfolding each to_data_point_group_proto
groups_accept [] = written []
groups_accept (none ∷ gs) = accepts-then _ (groups_accept gs)
groups_accept (some g ∷ gs) = accepts-then _ (groups_accept gs)

pub chunk_accepts : (c : Option Parts.StreamChunk) → Decides true (to_stream_chunk_proto c)
unfolding to_stream_chunk_proto to_data_point_groups_proto
chunk_accepts none = written _
chunk_accepts (some c) = accepts-then _ (groups_accept c.data_point_groups)

pub upstream_accepts :
    (u : Option Parts.UpstreamOrAlias) → Decides (known_upstream u) (to_upstream_or_alias_proto u)
unfolding to_upstream_or_alias_proto
upstream_accepts none = refused
upstream_accepts (some (info v)) = written _
upstream_accepts (some (alias a)) = written _
upstream_accepts (some (alias_pointer a)) = refused

module _ {T P : Type 0} (o : Outside T P) where
  pub code_accepts : (c : ResultCode) → Decides (known_code c) (to_result_code_proto o c)
  unfolding to_result_code_proto code_name
  code_accepts (other n) = refused
  code_accepts ResultCode.succeeded = written _
  code_accepts ResultCode.normal_closure = written _
  code_accepts ResultCode.incompatible_version = written _
  code_accepts ResultCode.maximum_data_id_alias = written _
  code_accepts ResultCode.maximum_upstream_alias = written _
  code_accepts ResultCode.unspecified_error = written _
  code_accepts ResultCode.no_node_id = written _
  code_accepts ResultCode.auth_failed = written _
  code_accepts ResultCode.connect_timeout = written _
  code_accepts ResultCode.malformed_message = written _
  code_accepts ResultCode.protocol_error = written _
  code_accepts ResultCode.ack_timeout = written _
  code_accepts ResultCode.invalid_payload = written _
  code_accepts ResultCode.invalid_data_id = written _
  code_accepts ResultCode.invalid_data_id_alias = written _
  code_accepts ResultCode.invalid_data_filter = written _
  code_accepts ResultCode.stream_not_found = written _
  code_accepts ResultCode.resume_request_conflict = written _
  code_accepts ResultCode.process_failed = written _
  code_accepts ResultCode.desired_qos_not_supported = written _
  code_accepts ResultCode.ping_timeout = written _
  code_accepts ResultCode.too_large_message_size = written _
  code_accepts ResultCode.too_many_data_id_aliases = written _
  code_accepts ResultCode.too_many_streams = written _
  code_accepts ResultCode.too_long_ack_interval = written _
  code_accepts ResultCode.too_many_downstream_filters = written _
  code_accepts ResultCode.too_many_data_filters = written _
  code_accepts ResultCode.too_long_expiry_interval = written _
  code_accepts ResultCode.too_long_ping_timeout = written _
  code_accepts ResultCode.too_short_ping_interval = written _
  code_accepts ResultCode.too_short_ping_timeout = written _
  code_accepts ResultCode.node_id_mismatch = written _
  code_accepts ResultCode.rate_limit_reached = written _
  code_accepts ResultCode.session_not_found = written _
  code_accepts ResultCode.session_already_closed = written _
  code_accepts ResultCode.session_cannot_closed = written _
  code_accepts ResultCode.invalid_resume_token = written _

  pub qos_accepts : (q : Qos) → Decides (known_qos q) (to_qos_proto o q)
  unfolding to_qos_proto qos_name
  qos_accepts (unlisted n) = refused
  qos_accepts Qos.unreliable = written _
  qos_accepts Qos.reliable = written _
  qos_accepts Qos.partial = written _

  pub sendable_accepts :
      (m : SendableMetadata T) → Decides (known_sendable m) (to_sendable_metadata_proto o m)
  unfolding to_sendable_metadata_proto
  sendable_accepts (SendableMetadata.base_time v) = written _
  sendable_accepts SendableMetadata.no_case = refused

  pub metadata_accepts : (m : Metadata T) → Decides (known_metadata m) (to_metadata_proto o m)
  unfolding to_metadata_proto to_upstream_open_proto to_upstream_resume_proto
      to_downstream_open_proto to_downstream_resume_proto
  metadata_accepts (Metadata.base_time v) = written _
  metadata_accepts (Metadata.upstream_open v) = accepts-then _ (accepts-then _ (qos_accepts v.qos))
  metadata_accepts (Metadata.upstream_abnormal_close v) = written _
  metadata_accepts (Metadata.upstream_resume v) =
      accepts-then _ (accepts-then _ (qos_accepts v.qos))
  metadata_accepts (Metadata.upstream_normal_close v) = written _
  metadata_accepts (Metadata.downstream_open v) =
      accepts-then _ (accepts-then _ (qos_accepts v.qos))
  metadata_accepts (Metadata.downstream_abnormal_close v) = written _
  metadata_accepts (Metadata.downstream_resume v) =
      accepts-then _ (accepts-then _ (qos_accepts v.qos))
  metadata_accepts (Metadata.downstream_normal_close v) = written _
  metadata_accepts Metadata.no_case = refused
