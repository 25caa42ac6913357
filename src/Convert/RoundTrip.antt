-- ===== src/Convert/RoundTrip.antt =====
-- encoding/convert: a message written and read back.
pub mod Carried
pub mod Parts
pub mod Names
pub mod Checked
pub mod Metadata
pub mod Conditions
pub mod Control
pub mod Upstreams
pub mod Downstreams
pub mod Data
use iscp_go.Prelude.{◌≡◌, refl, ap, ◌∙◌, some, none}
use iscp_go.Convert.Outcome.{Outcome, ok, malformed, invalid_data_id, panicked, ◌>>=◌}
use iscp_go.Convert.Messages.{Message}
use iscp_go.Convert.Autogen
use iscp_go.Convert.Outside.{Outside, IsLawful}
use iscp_go.Convert.ToProto.{to_downstream_chunk_proto, to_upstream_metadata_proto, fields}
use iscp_go.Convert.ToProto.{wire_to_proto}
use iscp_go.Convert.ToWire.{from_fields, proto_to_wire}
use iscp_go.Convert.RoundTrip.Conditions.{CanTravel}
use iscp_go.Convert.RoundTrip.Control.*
use iscp_go.Convert.RoundTrip.Upstreams.*
use iscp_go.Convert.RoundTrip.Downstreams.*
use iscp_go.Convert.RoundTrip.Data.*

-- A case of both switches: where its struct comes back, so does the message.
case_trip {ℓ κ ι μ} :
    {S : Type ℓ} {F : Type κ} {M : Type ι} {R : Type μ} (x : Outcome S) (make : S → F)
    (read : F → Outcome R) (back : S → Outcome M) (wrap : M → R)
    → ((p : S) → read (make p) ≡ (back p >>= λ m. ok (wrap m)))
    → {m : M} → (x >>= back) ≡ ok m
    → ((x >>= λ p. ok (make p)) >>= read) ≡ ok (wrap m)
case_trip (ok p) make read back wrap same e = same p ∙ ap (λ r. r >>= λ m. ok (wrap m)) e
case_trip malformed make read back wrap same e = cc e
case_trip invalid_data_id make read back wrap same e = cc e
case_trip panicked make read back wrap same e = cc e

module _ {T P : Type 0} {o : Outside T P} (l : IsLawful o) where
  fields_trip : (m : Message T) → CanTravel o m → (fields o m >>= from_fields o) ≡ ok m
  unfolding fields from_fields to_downstream_chunk_proto to_upstream_metadata_proto
  fields_trip (Message.connect_request m) h =
      ap (λ r. r >>= λ m. ok (Message.connect_request m)) (connect_request_trip l m h)
  fields_trip (Message.connect_response m) h =
      case_trip _ Autogen.Message.connect_response (from_fields o) _ Message.connect_response
        (λ p. refl) (connect_response_trip l m h)
  fields_trip (Message.disconnect m) h =
      case_trip _ Autogen.Message.disconnect (from_fields o) _ Message.disconnect (λ p. refl)
        (disconnect_trip l m h)
  fields_trip (Message.upstream_open_request m) h =
      case_trip _ Autogen.Message.upstream_open_request (from_fields o) _
        Message.upstream_open_request (λ p. refl) (upstream_open_request_trip l m h)
  fields_trip (Message.upstream_open_response m) h =
      case_trip _ Autogen.Message.upstream_open_response (from_fields o) _
        Message.upstream_open_response (λ p. refl) (upstream_open_response_trip l m h)
  fields_trip (Message.upstream_resume_request m) h =
      ap (λ r. r >>= λ m. ok (Message.upstream_resume_request m))
        (upstream_resume_request_trip l m h)
  fields_trip (Message.upstream_resume_response m) h =
      case_trip _ Autogen.Message.upstream_resume_response (from_fields o) _
        Message.upstream_resume_response (λ p. refl) (upstream_resume_response_trip l m h)
  fields_trip (Message.upstream_close_request m) h =
      ap (λ r. r >>= λ m. ok (Message.upstream_close_request m)) (upstream_close_request_trip l m h)
  fields_trip (Message.upstream_close_response m) h =
      case_trip _ Autogen.Message.upstream_close_response (from_fields o) _
        Message.upstream_close_response (λ p. refl) (upstream_close_response_trip l m h)
  fields_trip (Message.downstream_open_request m) h =
      case_trip _ Autogen.Message.downstream_open_request (from_fields o) _
        Message.downstream_open_request (λ p. refl) (downstream_open_request_trip l m h)
  fields_trip (Message.downstream_open_response m) h =
      case_trip _ Autogen.Message.downstream_open_response (from_fields o) _
        Message.downstream_open_response (λ p. refl) (downstream_open_response_trip l m h)
  fields_trip (Message.downstream_resume_request m) h =
      ap (λ r. r >>= λ m. ok (Message.downstream_resume_request m))
        (downstream_resume_request_trip l m h)
  fields_trip (Message.downstream_resume_response m) h =
      case_trip _ Autogen.Message.downstream_resume_response (from_fields o) _
        Message.downstream_resume_response (λ p. refl) (downstream_resume_response_trip l m h)
  fields_trip (Message.downstream_close_request m) h =
      ap (λ r. r >>= λ m. ok (Message.downstream_close_request m))
        (downstream_close_request_trip l m h)
  fields_trip (Message.downstream_close_response m) h =
      case_trip _ Autogen.Message.downstream_close_response (from_fields o) _
        Message.downstream_close_response (λ p. refl) (downstream_close_response_trip l m h)
  fields_trip (Message.upstream_call m) h =
      ap (λ m. ok (Message.upstream_call m)) (upstream_call_trip m)
  fields_trip (Message.upstream_call_ack m) h =
      case_trip _ Autogen.Message.upstream_call_ack (from_fields o) _ Message.upstream_call_ack
        (λ p. refl) (upstream_call_ack_trip l m h)
  fields_trip (Message.downstream_call m) h =
      ap (λ m. ok (Message.downstream_call m)) (downstream_call_trip m)
  fields_trip (Message.ping m) h = ap (λ m. ok (Message.ping m)) (ping_trip m)
  fields_trip (Message.pong m) h = ap (λ m. ok (Message.pong m)) (pong_trip m)
  fields_trip (Message.upstream_chunk m) h =
      case_trip _ Autogen.Message.upstream_chunk (from_fields o) _ Message.upstream_chunk
        (λ p. refl) (upstream_chunk_trip l m h)
  fields_trip (Message.upstream_chunk_ack m) h =
      case_trip _ Autogen.Message.upstream_chunk_ack (from_fields o) _ Message.upstream_chunk_ack
        (λ p. refl) (upstream_chunk_ack_trip l m h)
  fields_trip (Message.downstream_chunk none) h = elim h [ ]
  fields_trip (Message.downstream_chunk (some m)) h =
      case_trip _ Autogen.Message.downstream_chunk (from_fields o) _
        (λ m. Message.downstream_chunk (some m)) (λ p. refl) (downstream_chunk_trip l m h)
  fields_trip (Message.downstream_chunk_ack m) h =
      case_trip _ Autogen.Message.downstream_chunk_ack (from_fields o) _
        Message.downstream_chunk_ack (λ p. refl) (downstream_chunk_ack_trip l m h)
  fields_trip (Message.downstream_chunk_ack_complete m) h =
      case_trip _ Autogen.Message.downstream_chunk_ack_complete (from_fields o) _
        Message.downstream_chunk_ack_complete (λ p. refl) (downstream_chunk_ack_complete_trip l m h)
  fields_trip (Message.upstream_metadata none) h = elim h [ ]
  fields_trip (Message.upstream_metadata (some m)) h =
      case_trip _ Autogen.Message.upstream_metadata (from_fields o) _
        (λ m. Message.upstream_metadata (some m)) (λ p. refl) (upstream_metadata_trip l m h)
  fields_trip (Message.upstream_metadata_ack m) h =
      case_trip _ Autogen.Message.upstream_metadata_ack (from_fields o) _
        Message.upstream_metadata_ack (λ p. refl) (upstream_metadata_ack_trip l m h)
  fields_trip (Message.downstream_metadata m) h =
      case_trip _ Autogen.Message.downstream_metadata (from_fields o) _ Message.downstream_metadata
        (λ p. refl) (downstream_metadata_trip l m h)
  fields_trip (Message.downstream_metadata_ack m) h =
      case_trip _ Autogen.Message.downstream_metadata_ack (from_fields o) _
        Message.downstream_metadata_ack (λ p. refl) (downstream_metadata_ack_trip l m h)
  fields_trip Message.unknown h = elim h [ ]

  read_made : (f : Autogen.Message) → proto_to_wire o (o.make f) ≡ (from_fields o f >>= λ m. ok m)
  unfolding proto_to_wire
  read_made f = rw (l.read-make f, proto_to_wire) (same (from_fields o f))
    where
      same : (r : Outcome (Message T)) → r ≡ (r >>= λ m. ok m)
      same (ok m) = refl
      same malformed = refl
      same invalid_data_id = refl
      same panicked = refl

  -- Where the packages outside of the repository do what they document, a message of any kind is
  -- written without an error, and reading the result gives an equal message, if its intervals are
  -- whole seconds, or for the ack interval whole milliseconds, below 2 ^ 32, its result codes and
  -- qualities of service are constants, the codes not that of a normal closure, its UUIDs have sixteen
  -- bytes, its times are made by `time.Unix` in UTC, its priority fits 8 bits, and no chunk, group, data
  -- ID, upstream, upstream info, filter reference or metadata in it is nil, or a pointer to an alias.
  pub converted_message_returns :
      (m : Message T) → CanTravel o m → (wire_to_proto o m >>= proto_to_wire o) ≡ ok m
  unfolding wire_to_proto
  converted_message_returns m h =
      case_trip (fields o m) o.make (proto_to_wire o) (from_fields o) (λ m'. m') read_made
        (fields_trip m h)
