-- ===== src/Convert/RoundTrip/Carried.antt =====
-- What the protobuf form can carry of each part of a message, said of the part alone.
use iscp_go.Prelude.{ℕ, ◌*◌, ◌^◌, ◌<◌, ◌≡◌, Option, none, some, List, [], ◌∷◌, length}
use iscp_go.Convert.Codes.{ResultCode, normal_closure, other, Qos, unlisted}
use iscp_go.Convert.Messages.Parts
use iscp_go.Convert.Messages.Parts.{DataIdOrAlias, by_alias_pointer, info, alias, alias_pointer}
use iscp_go.Convert.Messages.Parts.{Metadata, SendableMetadata}
use iscp_go.Convert.Outside.{Outside}

-- A property of every entry.
abbrev pub Each {ℓ} : {A : Type ℓ} → (A → Type 0) → List A → Type 0
Each C [] = Unit {0}
Each C (x ∷ xs) = C x × Each C xs

-- A property of what a pointer points to; nil has it, or not.
abbrev pub OrNil {ℓ} : {A : Type ℓ} → (A → Type 0) → Option A → Type 0
OrNil C none = Unit {0}
OrNil C (some x) = C x

abbrev pub Present {ℓ} : {A : Type ℓ} → (A → Type 0) → Option A → Type 0
Present C none = ⊥
Present C (some x) = C x

abbrev pub CarriedCode : ResultCode → Type 0
CarriedCode normal_closure = ⊥
CarriedCode (other n) = ⊥
CarriedCode _ = Unit {0}

abbrev pub CarriedQos : Qos → Type 0
CarriedQos (unlisted n) = ⊥
CarriedQos _ = Unit {0}

abbrev pub WholeSeconds : ℕ → Type 0
WholeSeconds d = (n : ℕ) × (n < 2 ^ 32) × (d ≡ n * 1_000_000_000)

abbrev pub WholeMilliseconds : ℕ → Type 0
WholeMilliseconds d = (n : ℕ) × (n < 2 ^ 32) × (d ≡ n * 1_000_000)

abbrev pub IsUuid : List ℕ → Type 0
IsUuid b = length b ≡ 16

abbrev pub CarriedIntdash : Parts.IntdashExtensionFields → Type 0
CarriedIntdash e = IsUuid e.project_uuid

abbrev pub CarriedConnectFields : Parts.ConnectRequestExtensionFields → Type 0
CarriedConnectFields e = OrNil CarriedIntdash e.intdash

abbrev pub CarriedId : DataIdOrAlias → Type 0
CarriedId (by_alias_pointer a) = ⊥
CarriedId _ = Unit {0}

abbrev pub CarriedGroup : Parts.DataPointGroup → Type 0
CarriedGroup g = Present CarriedId g.data_id_or_alias

abbrev pub CarriedChunk : Parts.StreamChunk → Type 0
CarriedChunk c = Each (Present CarriedGroup) c.data_point_groups

abbrev pub CarriedUpstreamResult : Parts.UpstreamChunkResult → Type 0
CarriedUpstreamResult v = CarriedCode v.result_code

abbrev pub CarriedDownstreamResult : Parts.DownstreamChunkResult → Type 0
CarriedDownstreamResult v = CarriedCode v.result_code × IsUuid v.stream_id_of_upstream

abbrev pub CarriedInfo : Parts.UpstreamInfo → Type 0
CarriedInfo v = IsUuid v.stream_id

abbrev pub CarriedAlias : ℕ × Option Parts.UpstreamInfo → Type 0
CarriedAlias e = Present CarriedInfo e.1

abbrev pub CarriedUpstream : Parts.UpstreamOrAlias → Type 0
CarriedUpstream (info v) = CarriedInfo v
CarriedUpstream (alias a) = Unit {0}
CarriedUpstream (alias_pointer a) = ⊥

abbrev pub Something : Parts.DownstreamFilterReference → Type 0
Something v = Unit {0}

abbrev pub CarriedReferences : List (List (Option Parts.DownstreamFilterReference)) → Type 0
CarriedReferences groups = Each (Each (Present Something)) groups

module _ {T P : Type 0} (o : Outside T P) where
  -- a time that `time.Unix(0, n).UTC()` makes
  abbrev pub IsUtc : T → Type 0
  IsUtc t = (n : ℕ) × (n < 2 ^ 64) × (t ≡ o.unix n)

  abbrev pub CarriedBaseTime : Parts.BaseTime T → Type 0
  CarriedBaseTime v = (v.priority < 2 ^ 8) × IsUtc v.base_time

  abbrev pub CarriedSendable : SendableMetadata T → Type 0
  CarriedSendable (SendableMetadata.base_time v) = CarriedBaseTime v
  CarriedSendable SendableMetadata.no_case = ⊥

  abbrev pub CarriedMetadata : Metadata T → Type 0
  CarriedMetadata (Metadata.base_time v) = CarriedBaseTime v
  CarriedMetadata (Metadata.upstream_open v) = CarriedQos v.qos × IsUuid v.stream_id
  CarriedMetadata (Metadata.upstream_abnormal_close v) = IsUuid v.stream_id
  CarriedMetadata (Metadata.upstream_resume v) = CarriedQos v.qos × IsUuid v.stream_id
  CarriedMetadata (Metadata.upstream_normal_close v) = IsUuid v.stream_id
  CarriedMetadata (Metadata.downstream_open v) = CarriedQos v.qos × IsUuid v.stream_id
  CarriedMetadata (Metadata.downstream_abnormal_close v) = IsUuid v.stream_id
  CarriedMetadata (Metadata.downstream_resume v) = CarriedQos v.qos × IsUuid v.stream_id
  CarriedMetadata (Metadata.downstream_normal_close v) = IsUuid v.stream_id
  CarriedMetadata Metadata.no_case = ⊥
