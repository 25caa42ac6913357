-- ===== src/Convert/Reading.antt =====
-- encoding/convert/proto_to_wire.go: what reading a message can end with.
pub mod Outcomes
pub mod Parts
use iscp_go.Prelude.{◌≡◌, refl, true, Option, none, some, ◌⊎◌, inl, inr}
use iscp_go.Convert.Outcome.{Outcome, ok, malformed, ◌>>=◌}
use iscp_go.Convert.Messages.{Message}
use iscp_go.Convert.Autogen
use iscp_go.Convert.Reading.Outcomes.{EndsIn, Any, reads-next, reads-then, got, bad}
use iscp_go.Convert.Reading.Parts.{chunk_reads, code_reads, qos_reads, uuid_reads}
use iscp_go.Convert.Reading.Parts.{connect_fields_reads, upstream_or_alias_reads}
use iscp_go.Convert.Reading.Parts.{sendable_reads, metadata_reads, upstream_results_reads}
use iscp_go.Convert.Reading.Parts.{BadResult, BadAlias, downstream_results_reads}
use iscp_go.Convert.Reading.Parts.{upstream_aliases_reads}
use iscp_go.Convert.Outside.{Outside, IsLawful}
use iscp_go.Convert.Errors.Sendable.{sendable}
use iscp_go.Convert.ToWire.{from_fields, proto_to_wire}
use iscp_go.Convert.ToWire.Control.{connect_request_wire, connect_response_wire}
use iscp_go.Convert.ToWire.Control.{disconnect_wire, upstream_call_ack_wire}
use iscp_go.Convert.ToWire.Upstreams.{upstream_open_request_wire, upstream_open_response_wire}
use iscp_go.Convert.ToWire.Upstreams.{upstream_resume_request_wire}
use iscp_go.Convert.ToWire.Upstreams.{upstream_resume_response_wire}
use iscp_go.Convert.ToWire.Upstreams.{upstream_close_request_wire}
use iscp_go.Convert.ToWire.Upstreams.{upstream_close_response_wire}
use iscp_go.Convert.ToWire.Downstreams.{downstream_open_request_wire}
use iscp_go.Convert.ToWire.Downstreams.{downstream_open_response_wire}
use iscp_go.Convert.ToWire.Downstreams.{downstream_resume_request_wire}
use iscp_go.Convert.ToWire.Downstreams.{downstream_resume_response_wire}
use iscp_go.Convert.ToWire.Downstreams.{downstream_close_request_wire}
use iscp_go.Convert.ToWire.Downstreams.{downstream_close_response_wire}
use iscp_go.Convert.ToWire.Data.{upstream_chunk_wire, upstream_chunk_ack_wire}
use iscp_go.Convert.ToWire.Data.{downstream_chunk_wire, downstream_chunk_ack_wire}
use iscp_go.Convert.ToWire.Data.{downstream_chunk_ack_complete_wire, upstream_metadata_wire}
use iscp_go.Convert.ToWire.Data.{upstream_metadata_ack_wire, downstream_metadata_wire}
use iscp_go.Convert.ToWire.Data.{downstream_metadata_ack_wire}

-- The messages that a reader may panic at: acknowledgements of downstream chunks with a result or an
-- alias whose stream ID is not of sixteen bytes.
abbrev pub Unreadable : Autogen.Message → Type 0
Unreadable (Autogen.Message.downstream_chunk_ack a) =
    Any BadResult a.results ⊎ Any BadAlias a.upstream_aliases
Unreadable _ = ⊥

abbrev pub UnreadableCase : Option Autogen.Message → Type 0
UnreadableCase none = ⊥
UnreadableCase (some f) = Unreadable f

-- A message that can be written.
abbrev pub IsSendable : {T : Type 0} → Message T → Type 0
IsSendable m = sendable m ≡ true

module _ {T P : Type 0} {o : Outside T P} (l : IsLawful o) where
  fields_read : (f : Autogen.Message) → EndsIn (Unreadable f) IsSendable (from_fields o f)
  unfolding from_fields sendable connect_request_wire connect_response_wire disconnect_wire
      upstream_open_request_wire upstream_open_response_wire upstream_resume_request_wire
      upstream_resume_response_wire upstream_close_request_wire upstream_close_response_wire
      downstream_open_request_wire downstream_open_response_wire downstream_resume_request_wire
      downstream_resume_response_wire downstream_close_request_wire downstream_close_response_wire
      upstream_call_ack_wire upstream_chunk_wire upstream_chunk_ack_wire downstream_chunk_wire
      downstream_chunk_ack_wire downstream_chunk_ack_complete_wire upstream_metadata_wire
      upstream_metadata_ack_wire downstream_metadata_wire downstream_metadata_ack_wire
  fields_read (Autogen.Message.connect_request m) =
      reads-then {Q = λ w. IsSendable {T = T} (Message.connect_request w)} _
        (reads-then _ (connect_fields_reads o ⊥ m.extension_fields) (λ a0 q0. refl)) (λ w q. q)
  fields_read (Autogen.Message.connect_response m) =
      reads-then {Q = λ w. IsSendable {T = T} (Message.connect_response w)} _
        (reads-then _ (code_reads o ⊥ m.result_code) (λ a0 q0. q0)) (λ w q. q)
  fields_read (Autogen.Message.disconnect m) =
      reads-then {Q = λ w. IsSendable {T = T} (Message.disconnect w)} _
        (reads-then _ (code_reads o ⊥ m.result_code) (λ a0 q0. q0)) (λ w q. q)
  fields_read (Autogen.Message.upstream_open_request m) =
      reads-then {Q = λ w. IsSendable {T = T} (Message.upstream_open_request w)} _
        (reads-then _ (qos_reads o ⊥ m.qos) (λ a0 q0. q0)) (λ w q. q)
  fields_read (Autogen.Message.upstream_open_response m) =
      reads-then {Q = λ w. IsSendable {T = T} (Message.upstream_open_response w)} _
        (reads-next _ (code_reads o ⊥ m.result_code)
          (λ a0 q0. reads-then _ (uuid_reads o ⊥ m.assigned_stream_id) (λ a1 q1. q0)))
        (λ w q. q)
  fields_read (Autogen.Message.upstream_resume_request m) =
      reads-then {Q = λ w. IsSendable {T = T} (Message.upstream_resume_request w)} _
        (reads-then _ (uuid_reads o ⊥ m.stream_id) (λ a0 q0. refl)) (λ w q. q)
  fields_read (Autogen.Message.upstream_resume_response m) =
      reads-then {Q = λ w. IsSendable {T = T} (Message.upstream_resume_response w)} _
        (reads-then _ (code_reads o ⊥ m.result_code) (λ a0 q0. q0)) (λ w q. q)
  fields_read (Autogen.Message.upstream_close_request m) =
      reads-then {Q = λ w. IsSendable {T = T} (Message.upstream_close_request w)} _
        (reads-then _ (uuid_reads o ⊥ m.stream_id) (λ a0 q0. refl)) (λ w q. q)
  fields_read (Autogen.Message.upstream_close_response m) =
      reads-then {Q = λ w. IsSendable {T = T} (Message.upstream_close_response w)} _
        (reads-then _ (code_reads o ⊥ m.result_code) (λ a0 q0. q0)) (λ w q. q)
  fields_read (Autogen.Message.downstream_open_request m) =
      reads-then {Q = λ w. IsSendable {T = T} (Message.downstream_open_request w)} _
        (reads-then _ (qos_reads o ⊥ m.qos) (λ a0 q0. q0)) (λ w q. q)
  fields_read (Autogen.Message.downstream_open_response m) =
      reads-then {Q = λ w. IsSendable {T = T} (Message.downstream_open_response w)} _
        (reads-next _ (code_reads o ⊥ m.result_code)
          (λ a0 q0. reads-then _ (uuid_reads o ⊥ m.assigned_stream_id) (λ a1 q1. q0)))
        (λ w q. q)
  fields_read (Autogen.Message.downstream_resume_request m) =
      reads-then {Q = λ w. IsSendable {T = T} (Message.downstream_resume_request w)} _
        (reads-then _ (uuid_reads o ⊥ m.stream_id) (λ a0 q0. refl)) (λ w q. q)
  fields_read (Autogen.Message.downstream_resume_response m) =
      reads-then {Q = λ w. IsSendable {T = T} (Message.downstream_resume_response w)} _
        (reads-then _ (code_reads o ⊥ m.result_code) (λ a0 q0. q0)) (λ w q. q)
  fields_read (Autogen.Message.downstream_close_request m) =
      reads-then {Q = λ w. IsSendable {T = T} (Message.downstream_close_request w)} _
        (reads-then _ (uuid_reads o ⊥ m.stream_id) (λ a0 q0. refl)) (λ w q. q)
  fields_read (Autogen.Message.downstream_close_response m) =
      reads-then {Q = λ w. IsSendable {T = T} (Message.downstream_close_response w)} _
        (reads-then _ (code_reads o ⊥ m.result_code) (λ a0 q0. q0)) (λ w q. q)
  fields_read (Autogen.Message.upstream_call m) = got _ refl
  fields_read (Autogen.Message.upstream_call_ack m) =
      reads-then {Q = λ w. IsSendable {T = T} (Message.upstream_call_ack w)} _
        (reads-then _ (code_reads o ⊥ m.result_code) (λ a0 q0. q0)) (λ w q. q)
  fields_read (Autogen.Message.downstream_call m) = got _ refl
  fields_read (Autogen.Message.ping m) = got _ refl
  fields_read (Autogen.Message.pong m) = got _ refl
  fields_read (Autogen.Message.upstream_chunk m) =
      reads-then {Q = λ w. IsSendable {T = T} (Message.upstream_chunk w)} _
        (reads-then _ (chunk_reads ⊥ m.stream_chunk) (λ a0 q0. refl)) (λ w q. q)
  fields_read (Autogen.Message.upstream_chunk_ack m) =
      reads-then {Q = λ w. IsSendable {T = T} (Message.upstream_chunk_ack w)} _
        (reads-then _ (upstream_results_reads o ⊥ m.results) (λ a0 q0. q0)) (λ w q. q)
  fields_read (Autogen.Message.downstream_chunk m) =
      reads-then {Q = λ w. IsSendable {T = T} (Message.downstream_chunk (some w))} _
        (reads-next _ (upstream_or_alias_reads o ⊥ m.upstream_or_alias)
          (λ a0 q0. reads-then _ (chunk_reads ⊥ m.stream_chunk) (λ a1 q1. q0)))
        (λ w q. q)
  fields_read (Autogen.Message.downstream_chunk_ack m) =
      reads-then {Q = λ w. IsSendable {T = T} (Message.downstream_chunk_ack w)} _
        (reads-next _
          (downstream_results_reads l (Unreadable (Autogen.Message.downstream_chunk_ack m))
            m.results inl)
          (λ a0 q0.
            reads-then _
              (upstream_aliases_reads l (Unreadable (Autogen.Message.downstream_chunk_ack m))
                m.upstream_aliases inr)
              (λ a1 q1. q0)))
        (λ w q. q)
  fields_read (Autogen.Message.downstream_chunk_ack_complete m) =
      reads-then {Q = λ w. IsSendable {T = T} (Message.downstream_chunk_ack_complete w)} _
        (reads-then _ (code_reads o ⊥ m.result_code) (λ a0 q0. q0)) (λ w q. q)
  fields_read (Autogen.Message.upstream_metadata m) =
      reads-then {Q = λ w. IsSendable {T = T} (Message.upstream_metadata (some w))} _
        (reads-then _ (sendable_reads o ⊥ m.metadata) (λ a0 q0. q0)) (λ w q. q)
  fields_read (Autogen.Message.upstream_metadata_ack m) =
      reads-then {Q = λ w. IsSendable {T = T} (Message.upstream_metadata_ack w)} _
        (reads-then _ (code_reads o ⊥ m.result_code) (λ a0 q0. q0)) (λ w q. q)
  fields_read (Autogen.Message.downstream_metadata m) =
      reads-then {Q = λ w. IsSendable {T = T} (Message.downstream_metadata w)} _
        (reads-then _ (metadata_reads o ⊥ m.metadata) (λ a0 q0. q0)) (λ w q. q)
  fields_read (Autogen.Message.downstream_metadata_ack m) =
      reads-then {Q = λ w. IsSendable {T = T} (Message.downstream_metadata_ack w)} _
        (reads-then _ (code_reads o ⊥ m.result_code) (λ a0 q0. q0)) (λ w q. q)

  case_read :
      (f : Option Autogen.Message)
      → EndsIn
          (UnreadableCase f)
          IsSendable
          (elim f [ none ↦ malformed | some g ↦ from_fields o g ])
  case_read none = bad
  case_read (some f) = fields_read f

  -- Where the packages outside of the repository do what they document, and no entry of a list or a map in
  -- the value is nil (the conversion follows these without a test), reading gives an error or a message
  -- that can be written again, or panics at an acknowledgement of downstream chunks in which a result or
  -- an upstream alias has a stream ID that is not of sixteen bytes.
  proto_to_wire-EndsIn : (p : P) → EndsIn (UnreadableCase (o.read p)) IsSendable (proto_to_wire o p)
  unfolding proto_to_wire
  proto_to_wire-EndsIn p = case_read (o.read p)
