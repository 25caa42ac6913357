-- ===== src/Convert/Reading/Parts.antt =====
-- encoding/convert/proto_to_wire.go: what reading a part of a message can end with.
use iscp_go.Prelude.{ℕ, ◌≡◌, ◌≢◌, refl, true, Option, none, some, List, [], ◌∷◌, inl, inr, length}
use iscp_go.Convert.Outcome.{ok, malformed, panicked, each}
use iscp_go.Convert.Codes.{CodeName, QosName, code_of_name, qos_of_name}
use iscp_go.Convert.Messages.Parts
use iscp_go.Convert.Messages.Parts.{Metadata, SendableMetadata}
use iscp_go.Convert.Autogen
use iscp_go.Convert.Autogen.{data_id, data_id_alias, upstream_info, upstream_alias}
use iscp_go.Convert.Reading.Outcomes.{EndsIn, Any, Whatever, reads-next, reads-then, each_reads}
use iscp_go.Convert.Reading.Outcomes.{got, bad, bad_data_id, panics}
use iscp_go.Convert.Outside.{Outside, IsLawful}
use iscp_go.Convert.Errors.Sendable.{all, known_code, known_qos, known_upstream}
use iscp_go.Convert.Errors.Sendable.{known_sendable, known_metadata}
use iscp_go.Convert.ToWire.Parts.{to_data_id_or_alias, to_data_point_group}
use iscp_go.Convert.ToWire.Parts.{to_data_point_groups, to_stream_chunk, to_result_code}
use iscp_go.Convert.ToWire.Parts.{to_qos, to_uuid, must_uuid, to_intdash_extension_fields}
use iscp_go.Convert.ToWire.Parts.{to_connect_request_extension_fields}
use iscp_go.Convert.ToWire.Parts.{to_upstream_data_point_result}
use iscp_go.Convert.ToWire.Parts.{to_upstream_data_point_results}
use iscp_go.Convert.ToWire.Parts.{to_downstream_data_point_result}
use iscp_go.Convert.ToWire.Parts.{to_downstream_data_point_results, to_upstream_info}
use iscp_go.Convert.ToWire.Parts.{to_upstream_alias, to_upstream_aliases, to_upstream_or_alias}
use iscp_go.Convert.ToWire.Metadata.{to_upstream_open, to_upstream_abnormal_close}
use iscp_go.Convert.ToWire.Metadata.{to_upstream_resume, to_upstream_normal_close}
use iscp_go.Convert.ToWire.Metadata.{to_downstream_open, to_downstream_abnormal_close}
use iscp_go.Convert.ToWire.Metadata.{to_downstream_resume, to_downstream_normal_close}
use iscp_go.Convert.ToWire.Metadata.{to_metadata_upstream, to_downstream_metadata}

id_reads :
    (B : Type 0) (i : Option Autogen.DataIdOrAlias) → EndsIn B Whatever (to_data_id_or_alias i)
unfolding to_data_id_or_alias
id_reads B (some (data_id v)) = got _ tt
id_reads B (some (data_id_alias a)) = got _ tt
id_reads B none = bad_data_id

group_reads :
    (B : Type 0) (g : Option Autogen.DataPointGroup) → EndsIn B Whatever (to_data_point_group g)
unfolding to_data_point_group
group_reads B none = got _ tt
group_reads B (some g) = reads-then _ (id_reads B g.data_id_or_alias) (λ a q. tt)

groups_reads :
    (B : Type 0) (gs : List (Option Autogen.DataPointGroup))
    → EndsIn B Whatever (each to_data_point_group gs)
unfolding each
groups_reads B [] = got _ tt
groups_reads B (g ∷ gs) =
    reads-next _ (group_reads B g) (λ y q. reads-then _ (groups_reads B gs) (λ ys qs. tt))

pub chunk_reads :
    (B : Type 0) (c : Option Autogen.StreamChunk) → EndsIn B Whatever (to_stream_chunk c)
unfolding to_stream_chunk to_data_point_groups
chunk_reads B none = got _ tt
chunk_reads B (some c) = reads-then _ (groups_reads B c.data_point_groups) (λ a q. tt)

name_reads :
    (B : Type 0) (n : Option CodeName)
    → EndsIn B
        (λ c. known_code c ≡ true)
        (elim n [ none ↦ malformed | some m ↦ ok (code_of_name m) ])
unfolding code_of_name
name_reads B none = bad
name_reads B (some CodeName.succeeded) = got _ refl
name_reads B (some CodeName.incompatible_version) = got _ refl
name_reads B (some CodeName.maximum_data_id_alias) = got _ refl
name_reads B (some CodeName.maximum_upstream_alias) = got _ refl
name_reads B (some CodeName.unspecified_error) = got _ refl
name_reads B (some CodeName.no_node_id) = got _ refl
name_reads B (some CodeName.auth_failed) = got _ refl
name_reads B (some CodeName.connect_timeout) = got _ refl
name_reads B (some CodeName.malformed_message) = got _ refl
name_reads B (some CodeName.protocol_error) = got _ refl
name_reads B (some CodeName.ack_timeout) = got _ refl
name_reads B (some CodeName.invalid_payload) = got _ refl
name_reads B (some CodeName.invalid_data_id) = got _ refl
name_reads B (some CodeName.invalid_data_id_alias) = got _ refl
name_reads B (some CodeName.invalid_data_filter) = got _ refl
name_reads B (some CodeName.stream_not_found) = got _ refl
name_reads B (some CodeName.resume_request_conflict) = got _ refl
name_reads B (some CodeName.process_failed) = got _ refl
name_reads B (some CodeName.desired_qos_not_supported) = got _ refl
name_reads B (some CodeName.ping_timeout) = got _ refl
name_reads B (some CodeName.too_large_message_size) = got _ refl
name_reads B (some CodeName.too_many_data_id_aliases) = got _ refl
name_reads B (some CodeName.too_many_streams) = got _ refl
name_reads B (some CodeName.too_long_ack_interval) = got _ refl
name_reads B (some CodeName.too_many_downstream_filters) = got _ refl
name_reads B (some CodeName.too_many_data_filters) = got _ refl
name_reads B (some CodeName.too_long_expiry_interval) = got _ refl
name_reads B (some CodeName.too_long_ping_timeout) = got _ refl
name_reads B (some CodeName.too_short_ping_interval) = got _ refl
name_reads B (some CodeName.too_short_ping_timeout) = got _ refl
name_reads B (some CodeName.node_id_mismatch) = got _ refl
name_reads B (some CodeName.rate_limit_reached) = got _ refl
name_reads B (some CodeName.session_not_found) = got _ refl
name_reads B (some CodeName.session_already_closed) = got _ refl
name_reads B (some CodeName.session_cannot_closed) = got _ refl
name_reads B (some CodeName.invalid_resume_token) = got _ refl

qos_name_reads :
    (B : Type 0) (n : Option QosName)
    → EndsIn B (λ c. known_qos c ≡ true) (elim n [ none ↦ malformed | some m ↦ ok (qos_of_name m) ])
unfolding qos_of_name
qos_name_reads B none = bad
qos_name_reads B (some QosName.unreliable) = got _ refl
qos_name_reads B (some QosName.reliable) = got _ refl
qos_name_reads B (some QosName.partial) = got _ refl

value_reads :
    {A : Type 0} (B : Type 0) (u : Option A)
    → EndsIn B Whatever (elim u [ none ↦ malformed | some v ↦ ok v ])
value_reads B none = bad
value_reads B (some v) = got v tt

module _ {T P : Type 0} (o : Outside T P) where
  pub code_reads : (B : Type 0) (k : ℕ) → EndsIn B (λ c. known_code c ≡ true) (to_result_code o k)
  unfolding to_result_code
  code_reads B k = name_reads B (o.result_code_name k)

  pub qos_reads : (B : Type 0) (k : ℕ) → EndsIn B (λ q. known_qos q ≡ true) (to_qos o k)
  unfolding to_qos
  qos_reads B k = qos_name_reads B (o.qos_name k)

  pub uuid_reads : (B : Type 0) (b : List ℕ) → EndsIn B Whatever (to_uuid o b)
  unfolding to_uuid
  uuid_reads B b = value_reads B (o.from_bytes b)

  intdash_reads :
      (B : Type 0) (e : Option Autogen.IntdashExtensionFields)
      → EndsIn B Whatever (to_intdash_extension_fields o e)
  unfolding to_intdash_extension_fields
  intdash_reads B none = got _ tt
  intdash_reads B (some e) = parsed (o.uuid_parse e.project_uuid)
    where
      parsed :
          (u : Option (List ℕ))
          → EndsIn {A = Option Parts.IntdashExtensionFields} B Whatever
              (elim u [ none ↦ malformed | some v ↦ ok (some (record { project_uuid = v })) ])
      parsed none = bad
      parsed (some v) = got _ tt

  pub connect_fields_reads :
      (B : Type 0) (e : Option Autogen.ConnectRequestExtensionFields)
      → EndsIn B Whatever (to_connect_request_extension_fields o e)
  unfolding to_connect_request_extension_fields
  connect_fields_reads B none = got _ tt
  connect_fields_reads B (some e) = reads-then _ (intdash_reads B e.intdash) (λ a q. tt)

  pub upstream_or_alias_reads :
      (B : Type 0) (u : Option Autogen.UpstreamOrAlias)
      → EndsIn B (λ v. known_upstream v ≡ true) (to_upstream_or_alias o u)
  unfolding to_upstream_or_alias
  upstream_or_alias_reads B (some (upstream_info v)) =
      reads-then _ (uuid_reads B v.stream_id) (λ a q. refl)
  upstream_or_alias_reads B (some (upstream_alias a)) = got _ refl
  upstream_or_alias_reads B none = bad

  pub sendable_reads :
      (B : Type 0) (m : Option Autogen.UpstreamMetadataCase)
      → EndsIn B (λ v. known_sendable v ≡ true) (to_metadata_upstream o m)
  unfolding to_metadata_upstream
  sendable_reads B (some (Autogen.UpstreamMetadataCase.base_time v)) = got _ refl
  sendable_reads B none = bad

  pub metadata_reads :
      (B : Type 0) (m : Option Autogen.Metadata)
      → EndsIn B (λ v. known_metadata v ≡ true) (to_downstream_metadata o m)
  unfolding to_downstream_metadata to_upstream_open to_upstream_abnormal_close to_upstream_resume
      to_upstream_normal_close to_downstream_open to_downstream_abnormal_close to_downstream_resume
      to_downstream_normal_close
  metadata_reads B (some (Autogen.Metadata.base_time v)) = got _ refl
  metadata_reads B (some (Autogen.Metadata.upstream_open v)) =
      reads-then {Q = λ w. known_metadata {T = T} (Metadata.upstream_open w) ≡ true} _
        (reads-next _ (qos_reads B v.qos)
          (λ q k. reads-then _ (uuid_reads B v.stream_id) (λ u t. k)))
        (λ w q. q)
  metadata_reads B (some (Autogen.Metadata.upstream_abnormal_close v)) =
      reads-then {Q = λ w. known_metadata {T = T} (Metadata.upstream_abnormal_close w) ≡ true} _
        (reads-then _ (uuid_reads B v.stream_id) (λ u t. refl)) (λ w q. q)
  metadata_reads B (some (Autogen.Metadata.upstream_resume v)) =
      reads-then {Q = λ w. known_metadata {T = T} (Metadata.upstream_resume w) ≡ true} _
        (reads-next _ (uuid_reads B v.stream_id)
          (λ u t. reads-then _ (qos_reads B v.qos) (λ q k. k)))
        (λ w q. q)
  metadata_reads B (some (Autogen.Metadata.upstream_normal_close v)) =
      reads-then {Q = λ w. known_metadata {T = T} (Metadata.upstream_normal_close w) ≡ true} _
        (reads-then _ (uuid_reads B v.stream_id) (λ u t. refl)) (λ w q. q)
  metadata_reads B (some (Autogen.Metadata.downstream_open v)) =
      reads-then {Q = λ w. known_metadata {T = T} (Metadata.downstream_open w) ≡ true} _
        (reads-next _ (qos_reads B v.qos)
          (λ q k. reads-then _ (uuid_reads B v.stream_id) (λ u t. k)))
        (λ w q. q)
  metadata_reads B (some (Autogen.Metadata.downstream_abnormal_close v)) =
      reads-then {Q = λ w. known_metadata {T = T} (Metadata.downstream_abnormal_close w) ≡ true} _
        (reads-then _ (uuid_reads B v.stream_id) (λ u t. refl)) (λ w q. q)
  metadata_reads B (some (Autogen.Metadata.downstream_resume v)) =
      reads-then {Q = λ w. known_metadata {T = T} (Metadata.downstream_resume w) ≡ true} _
        (reads-next _ (uuid_reads B v.stream_id)
          (λ u t. reads-then _ (qos_reads B v.qos) (λ q k. k)))
        (λ w q. q)
  metadata_reads B (some (Autogen.Metadata.downstream_normal_close v)) =
      reads-then {Q = λ w. known_metadata {T = T} (Metadata.downstream_normal_close w) ≡ true} _
        (reads-then _ (uuid_reads B v.stream_id) (λ u t. refl)) (λ w q. q)
  metadata_reads B none = bad

  pub upstream_results_reads :
      (B : Type 0) (vs : List Autogen.UpstreamChunkResult)
      → EndsIn B
          (λ rs. all (λ r. known_code r.result_code) rs ≡ true)
          (to_upstream_data_point_results o vs)
  unfolding to_upstream_data_point_results to_upstream_data_point_result
  upstream_results_reads B vs =
      each_reads B _ _ (λ v. ⊥) (λ v i. reads-then _ (code_reads B v.result_code) (λ c q. q)) vs
        (never vs)
    where
      never : (l : List Autogen.UpstreamChunkResult) → Any (λ v. ⊥) l → B
      never [] a = absurd a
      never (v ∷ l) (inl a) = absurd a
      never (v ∷ l) (inr a) = never l a

-- A stream ID that is not of sixteen bytes.
abbrev pub BadResult : Autogen.DownstreamChunkResult → Type 0
BadResult v = length v.stream_id_of_upstream ≢ 16

abbrev pub BadAlias : ℕ × Option Autogen.UpstreamInfo → Type 0
BadAlias (k, none) = ⊥
BadAlias (k, some v) = length v.stream_id ≢ 16

module _ {T P : Type 0} {o : Outside T P} (l : IsLawful o) where
  must_reads : (B : Type 0) (b : List ℕ) → (length b ≢ 16 → B) → EndsIn B Whatever (must_uuid o b)
  unfolding must_uuid
  must_reads B b i = read (o.from_bytes b) (λ e. i (λ n. cc (l.bytes-read b n, e)))
    where
      read :
          (u : Option (List ℕ))
          → (u ≡ none → B)
          → EndsIn B Whatever (elim u [ none ↦ panicked | some v ↦ ok v ])
      read none j = panics (j refl)
      read (some v) j = got v tt

  pub downstream_results_reads :
      (B : Type 0) (vs : List Autogen.DownstreamChunkResult)
      → (Any BadResult vs → B)
      → EndsIn B
          (λ rs. all (λ r. known_code r.result_code) rs ≡ true)
          (to_downstream_data_point_results o vs)
  unfolding to_downstream_data_point_results to_downstream_data_point_result
  downstream_results_reads B vs i =
      each_reads B _ _ BadResult
        (λ v j.
          reads-next _ (code_reads o B v.result_code)
            (λ c q. reads-then _ (must_reads B v.stream_id_of_upstream j) (λ u t. q)))
        vs i

  pub upstream_aliases_reads :
      (B : Type 0) (es : List (ℕ × Option Autogen.UpstreamInfo))
      → (Any BadAlias es → B)
      → EndsIn B Whatever (to_upstream_aliases o es)
  unfolding to_upstream_aliases to_upstream_alias to_upstream_info each
  upstream_aliases_reads B [] i = got _ tt
  upstream_aliases_reads B ((k, none) ∷ es) i =
      reads-then _ (upstream_aliases_reads B es (λ c. i (inr c))) (λ a q. tt)
  upstream_aliases_reads B ((k, some v) ∷ es) i =
      reads-next {Q = Whatever} _
        (reads-then {Q = Whatever} _
          (reads-then {R = Whatever} _ (must_reads B v.stream_id (λ c. i (inl c))) (λ u q. tt))
          (λ u q. tt))
        (λ a q. reads-then _ (upstream_aliases_reads B es (λ c. i (inr c))) (λ ds qs. tt))
