-- ===== src/Convert/RoundTrip/Checked.antt =====
-- The parts whose reading or writing can fail: written and read back.
use iscp_go.Prelude.{ℕ, ◌≡◌, refl, ap, ◌∙◌, Option, none, some, List, [], ◌∷◌}
use iscp_go.Convert.Outcome.{Outcome, ok, ◌>>=◌, each}
use iscp_go.Convert.Messages.Parts
use iscp_go.Convert.Messages.Parts.{by_id, by_alias, by_alias_pointer, info, alias, alias_pointer}
use iscp_go.Convert.Codes.{ResultCode, Qos}
use iscp_go.Convert.RoundTrip.Names.{code_names, qos_names}
use iscp_go.Convert.Outside.{Outside, IsLawful}
use iscp_go.Convert.RoundTrip.Carried.{Each, OrNil, Present, CarriedCode, CarriedQos}
use iscp_go.Convert.RoundTrip.Carried.{WholeSeconds, WholeMilliseconds, IsUuid, CarriedIntdash}
use iscp_go.Convert.RoundTrip.Carried.{CarriedConnectFields, CarriedId, CarriedGroup}
use iscp_go.Convert.RoundTrip.Carried.{CarriedChunk, CarriedUpstreamResult}
use iscp_go.Convert.RoundTrip.Carried.{CarriedDownstreamResult, CarriedAlias, CarriedUpstream}
use iscp_go.Convert.RoundTrip.Carried.{IsUtc}
use iscp_go.Convert.RoundTrip.Parts.{points_trip, empty_trip, from_seconds-whole}
use iscp_go.Convert.RoundTrip.Parts.{from_milliseconds-whole}
use iscp_go.Convert.ToProto.Parts.{to_data_id_proto, to_data_points_proto}
use iscp_go.Convert.ToProto.Parts.{to_empty_fields_proto, to_upstream_info_proto}
use iscp_go.Convert.ToProto.Parts.{to_upstream_aliases_proto, to_upstream_or_alias_proto}
use iscp_go.Convert.ToProto.Parts.{to_data_id_or_alias_proto, to_data_point_group_proto}
use iscp_go.Convert.ToProto.Parts.{to_data_point_groups_proto, to_stream_chunk_proto}
use iscp_go.Convert.ToProto.Parts.{to_result_code_proto, to_qos_proto}
use iscp_go.Convert.ToProto.Parts.{to_intdash_extension_fields_proto}
use iscp_go.Convert.ToProto.Parts.{to_connect_request_extension_fields_proto}
use iscp_go.Convert.ToProto.Parts.{to_upstream_data_point_result_proto}
use iscp_go.Convert.ToProto.Parts.{to_upstream_data_point_results_proto}
use iscp_go.Convert.ToProto.Parts.{to_downstream_data_point_result_proto}
use iscp_go.Convert.ToProto.Parts.{to_downstream_data_point_results_proto, or_unix_zero}
use iscp_go.Convert.ToWire.Parts.{from_seconds, from_milliseconds, to_data_id}
use iscp_go.Convert.ToWire.Parts.{to_data_id_or_alias, to_data_point_group}
use iscp_go.Convert.ToWire.Parts.{to_data_point_groups, to_stream_chunk, to_result_code}
use iscp_go.Convert.ToWire.Parts.{to_qos, to_uuid, must_uuid, to_intdash_extension_fields}
use iscp_go.Convert.ToWire.Parts.{to_connect_request_extension_fields}
use iscp_go.Convert.ToWire.Parts.{to_upstream_data_point_result}
use iscp_go.Convert.ToWire.Parts.{to_upstream_data_point_results}
use iscp_go.Convert.ToWire.Parts.{to_downstream_data_point_result}
use iscp_go.Convert.ToWire.Parts.{to_downstream_data_point_results, to_upstream_info}
use iscp_go.Convert.ToWire.Parts.{to_upstream_alias, to_upstream_aliases, to_upstream_or_alias}

-- Writing `x` gives a value from which reading gives `x` again.
abbrev pub ComesBack {ℓ κ} :
    {A : Type ℓ} {B : Type κ} → (A → Outcome B) → (B → Outcome A) → A → Type (ℓ ⊔ κ)
ComesBack {B = B} write read x = (p : B) × (write x ≡ ok p) × (read p ≡ ok x)

pub each_trip {ℓ κ} :
    {A : Type ℓ} {B : Type κ} (write : A → Outcome B) (read : B → Outcome A) (C : A → Type 0)
    → ((x : A) → C x → ComesBack write read x)
    → (l : List A) → Each C l
    → ComesBack (each write) (each read) l
unfolding each
each_trip write read C h [] c = ([], refl, refl)
each_trip write read C h (x ∷ xs) c =
    let (p, w, r) = h x c.0 in
    let (ps, ws, rs) = each_trip write read C h xs c.1 in (p ∷ ps, cc (w, ws), cc (r, rs))

group_trip :
    (g : Option Parts.DataPointGroup)
    → Present CarriedGroup g
    → ComesBack to_data_point_group_proto to_data_point_group g
unfolding to_data_point_group_proto to_data_point_group to_data_id_or_alias
    to_data_id_or_alias_proto to_data_id to_data_id_proto
group_trip none h = elim h [ ]
group_trip (some g) h = (_, refl, read g.data_id_or_alias h)
  where
    read :
        (i : Option Parts.DataIdOrAlias)
        → Present CarriedId i
        → to_data_point_group (
            some (record {
              data_id_or_alias = to_data_id_or_alias_proto i;
              data_points = to_data_points_proto g.data_points;
            }))
          ≡ ok (some (record { data_id_or_alias = i; data_points = g.data_points }))
    read none h = elim h [ ]
    read (some (by_id v)) h =
        ap (λ l. ok (some (record { data_id_or_alias = some (by_id v); data_points = l })))
          (points_trip g.data_points)
    read (some (by_alias_pointer a)) h = elim h [ ]
    read (some (by_alias a)) h =
        ap (λ l. ok (some (record { data_id_or_alias = some (by_alias a); data_points = l })))
          (points_trip g.data_points)

pub chunk_trip :
    (c : Option Parts.StreamChunk)
    → Present CarriedChunk c
    → ComesBack to_stream_chunk_proto to_stream_chunk c
unfolding to_stream_chunk_proto to_stream_chunk to_data_point_groups_proto to_data_point_groups
chunk_trip none h = elim h [ ]
chunk_trip (some c) h =
    let (gs, w, r) =
      each_trip to_data_point_group_proto to_data_point_group (Present CarriedGroup) group_trip
        c.data_point_groups h in
    (some (record { sequence_number = c.sequence_number; data_point_groups = gs }), cc w, cc r)

module _ {T P : Type 0} {o : Outside T P} (l : IsLawful o) where
  pub code_trip :
      (c : ResultCode) → CarriedCode c → ComesBack (to_result_code_proto o) (to_result_code o) c
  unfolding to_result_code_proto to_result_code
  code_trip c h =
      let (n, named, back) = code_names c h in
      (
        o.result_code n,
        rw (named, to_result_code_proto),
        rw (l.code-named n, to_result_code) (ap ok back),
      )

  pub qos_trip : (q : Qos) → CarriedQos q → ComesBack (to_qos_proto o) (to_qos o) q
  unfolding to_qos_proto to_qos
  qos_trip q h =
      let (n, named, back) = qos_names q h in
      (o.qos n, rw (named, to_qos_proto), rw (l.qos-named n, to_qos) (ap ok back))

  pub uuid_trip : (b : List ℕ) → IsUuid b → to_uuid o b ≡ ok b
  unfolding to_uuid
  uuid_trip b h = rw (l.bytes-read b h, to_uuid)

  pub must_trip : (b : List ℕ) → IsUuid b → must_uuid o b ≡ ok b
  unfolding must_uuid
  must_trip b h = rw (l.bytes-read b h, must_uuid)

  pub seconds_trip : (d : ℕ) → WholeSeconds d → from_seconds (o.seconds d) ≡ d
  seconds_trip d (n, below, whole) =
      rw whole (ap from_seconds (l.seconds-whole n below) ∙ from_seconds-whole n below)

  pub milliseconds_trip : (d : ℕ) → WholeMilliseconds d → from_milliseconds (o.milliseconds d) ≡ d
  milliseconds_trip d (n, below, whole) =
      rw whole
        (ap from_milliseconds (l.milliseconds-whole n below) ∙ from_milliseconds-whole n below)

  pub nano_trip : (t : T) → IsUtc o t → o.unix (o.unix_nano t) ≡ t
  nano_trip t (n, below, utc) = rw utc (ap o.unix (l.nano-unix n below))

  pub time_trip : (t : T) → IsUtc o t → o.unix (or_unix_zero o t) ≡ t
  unfolding or_unix_zero
  time_trip t (n, below, utc) = rw utc (rw (l.unix-set n below) (ap o.unix (l.nano-unix n below)))

  intdash_trip :
      (e : Option Parts.IntdashExtensionFields)
      → OrNil CarriedIntdash e
      → to_intdash_extension_fields o (to_intdash_extension_fields_proto o e) ≡ ok e
  unfolding to_intdash_extension_fields to_intdash_extension_fields_proto
  intdash_trip none h = refl
  intdash_trip (some e) h = rw (l.text-read e.project_uuid h)

  pub connect_fields_trip :
      (e : Option Parts.ConnectRequestExtensionFields)
      → OrNil CarriedConnectFields e
      → to_connect_request_extension_fields o (to_connect_request_extension_fields_proto o e) ≡ ok e
  unfolding to_connect_request_extension_fields to_connect_request_extension_fields_proto
  connect_fields_trip none h = refl
  connect_fields_trip (some e) h = rw (intdash_trip e.intdash h, ◌>>=◌)

  upstream_result_trip :
      (v : Parts.UpstreamChunkResult)
      → CarriedUpstreamResult v
      → ComesBack (to_upstream_data_point_result_proto o) (to_upstream_data_point_result o) v
  unfolding to_upstream_data_point_result_proto to_upstream_data_point_result
  upstream_result_trip v h =
      let (k, w, r) = code_trip v.result_code h in
      (
        record {
          sequence_number = v.sequence_number;
          result_code = k;
          result_string = v.result_string;
          extension_fields = to_empty_fields_proto v.extension_fields;
        },
        cc w,
        rw r (ap (λ e. ok (record v { extension_fields = e })) (empty_trip v.extension_fields)),
      )

  pub upstream_results_trip :
      (vs : List Parts.UpstreamChunkResult)
      → Each CarriedUpstreamResult vs
      → ComesBack (to_upstream_data_point_results_proto o) (to_upstream_data_point_results o) vs
  unfolding to_upstream_data_point_results_proto to_upstream_data_point_results
  upstream_results_trip vs h = each_trip _ _ CarriedUpstreamResult upstream_result_trip vs h

  downstream_result_trip :
      (v : Parts.DownstreamChunkResult)
      → CarriedDownstreamResult v
      → ComesBack (to_downstream_data_point_result_proto o) (to_downstream_data_point_result o) v
  unfolding to_downstream_data_point_result_proto to_downstream_data_point_result
  downstream_result_trip v h =
      let (k, w, r) = code_trip v.result_code h.0 in
      (
        record {
          stream_id_of_upstream = v.stream_id_of_upstream;
          sequence_number_in_upstream = v.sequence_number_in_upstream;
          result_code = k;
          result_string = v.result_string;
          extension_fields = to_empty_fields_proto v.extension_fields;
        },
        cc w,
        rw (r, ◌>>=◌)
            (rw (must_trip v.stream_id_of_upstream h.1, ◌>>=◌)
              (ap (λ e. ok (record v { extension_fields = e })) (empty_trip v.extension_fields))),
      )

  pub downstream_results_trip :
      (vs : List Parts.DownstreamChunkResult)
      → Each CarriedDownstreamResult vs
      → ComesBack (to_downstream_data_point_results_proto o) (to_downstream_data_point_results o) vs
  unfolding to_downstream_data_point_results_proto to_downstream_data_point_results
  downstream_results_trip vs h = each_trip _ _ CarriedDownstreamResult downstream_result_trip vs h

  alias_trip :
      (e : ℕ × Option Parts.UpstreamInfo)
      → CarriedAlias e
      → to_upstream_alias o (e.0, to_upstream_info_proto e.1) ≡ ok e
  unfolding to_upstream_alias to_upstream_info to_upstream_info_proto
  alias_trip (k, none) h = elim h [ ]
  alias_trip (k, some v) h = rw (must_trip v.stream_id h, ◌>>=◌)

  pub upstream_aliases_trip :
      (es : List (ℕ × Option Parts.UpstreamInfo))
      → Each CarriedAlias es
      → to_upstream_aliases o (to_upstream_aliases_proto es) ≡ ok es
  unfolding to_upstream_aliases to_upstream_aliases_proto each
  upstream_aliases_trip [] h = refl
  upstream_aliases_trip (e ∷ es) h = cc (alias_trip e h.0, upstream_aliases_trip es h.1)

  pub upstream_or_alias_trip :
      (u : Option Parts.UpstreamOrAlias)
      → Present CarriedUpstream u
      → ComesBack to_upstream_or_alias_proto (to_upstream_or_alias o) u
  unfolding to_upstream_or_alias_proto to_upstream_or_alias
  upstream_or_alias_trip none h = elim h [ ]
  upstream_or_alias_trip (some (info v)) h = (_, refl, rw (uuid_trip v.stream_id h, ◌>>=◌))
  upstream_or_alias_trip (some (alias a)) h = (_, refl, refl)
  upstream_or_alias_trip (some (alias_pointer a)) h = elim h [ ]
