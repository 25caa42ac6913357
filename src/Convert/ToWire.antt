-- ===== src/Convert/ToWire.antt =====
-- encoding/convert/proto_to_wire.go: the switch on the case of the message.
pub mod Parts
pub mod Metadata
pub mod Control
pub mod Upstreams
pub mod Downstreams
pub mod Data
use iscp_go.Prelude.{none, some}
use iscp_go.Convert.Outcome.{Outcome, ok, malformed, ◌>>=◌}
use iscp_go.Convert.Messages.{Message}
use iscp_go.Convert.Autogen
use iscp_go.Convert.Outside.{Outside}
use iscp_go.Convert.ToWire.Control.*
use iscp_go.Convert.ToWire.Upstreams.*
use iscp_go.Convert.ToWire.Downstreams.*
use iscp_go.Convert.ToWire.Data.*

module _ {T P : Type 0} (o : Outside T P) where
  -- The message that the case builds.
  unfoldable pub from_fields : Autogen.Message → Outcome (Message T)
  from_fields (Autogen.Message.connect_request p) = do
    m ← connect_request_wire o p
    ok (Message.connect_request m)
  from_fields (Autogen.Message.connect_response p) = do
    m ← connect_response_wire o p
    ok (Message.connect_response m)
  from_fields (Autogen.Message.disconnect p) = do m ← disconnect_wire o p; ok (Message.disconnect m)
  from_fields (Autogen.Message.upstream_open_request p) = do
    m ← upstream_open_request_wire o p
    ok (Message.upstream_open_request m)
  from_fields (Autogen.Message.upstream_open_response p) = do
    m ← upstream_open_response_wire o p
    ok (Message.upstream_open_response m)
  from_fields (Autogen.Message.upstream_resume_request p) = do
    m ← upstream_resume_request_wire o p
    ok (Message.upstream_resume_request m)
  from_fields (Autogen.Message.upstream_resume_response p) = do
    m ← upstream_resume_response_wire o p
    ok (Message.upstream_resume_response m)
  from_fields (Autogen.Message.upstream_close_request p) = do
    m ← upstream_close_request_wire o p
    ok (Message.upstream_close_request m)
  from_fields (Autogen.Message.upstream_close_response p) = do
    m ← upstream_close_response_wire o p
    ok (Message.upstream_close_response m)
  from_fields (Autogen.Message.downstream_open_request p) = do
    m ← downstream_open_request_wire o p
    ok (Message.downstream_open_request m)
  from_fields (Autogen.Message.downstream_open_response p) = do
    m ← downstream_open_response_wire o p
    ok (Message.downstream_open_response m)
  from_fields (Autogen.Message.downstream_resume_request p) = do
    m ← downstream_resume_request_wire o p
    ok (Message.downstream_resume_request m)
  from_fields (Autogen.Message.downstream_resume_response p) = do
    m ← downstream_resume_response_wire o p
    ok (Message.downstream_resume_response m)
  from_fields (Autogen.Message.downstream_close_request p) = do
    m ← downstream_close_request_wire o p
    ok (Message.downstream_close_request m)
  from_fields (Autogen.Message.downstream_close_response p) = do
    m ← downstream_close_response_wire o p
    ok (Message.downstream_close_response m)
  from_fields (Autogen.Message.upstream_call p) = ok (Message.upstream_call (upstream_call_wire p))
  from_fields (Autogen.Message.upstream_call_ack p) = do
    m ← upstream_call_ack_wire o p
    ok (Message.upstream_call_ack m)
  from_fields (Autogen.Message.downstream_call p) =
      ok (Message.downstream_call (downstream_call_wire p))
  from_fields (Autogen.Message.ping p) = ok (Message.ping (ping_wire p))
  from_fields (Autogen.Message.pong p) = ok (Message.pong (pong_wire p))
  from_fields (Autogen.Message.upstream_chunk p) = do
    m ← upstream_chunk_wire p
    ok (Message.upstream_chunk m)
  from_fields (Autogen.Message.upstream_chunk_ack p) = do
    m ← upstream_chunk_ack_wire o p
    ok (Message.upstream_chunk_ack m)
  from_fields (Autogen.Message.downstream_chunk p) = do
    m ← downstream_chunk_wire o p
    ok (Message.downstream_chunk (some m))
  from_fields (Autogen.Message.downstream_chunk_ack p) = do
    m ← downstream_chunk_ack_wire o p
    ok (Message.downstream_chunk_ack m)
  from_fields (Autogen.Message.downstream_chunk_ack_complete p) = do
    m ← downstream_chunk_ack_complete_wire o p
    ok (Message.downstream_chunk_ack_complete m)
  from_fields (Autogen.Message.upstream_metadata p) = do
    m ← upstream_metadata_wire o p
    ok (Message.upstream_metadata (some m))
  from_fields (Autogen.Message.upstream_metadata_ack p) = do
    m ← upstream_metadata_ack_wire o p
    ok (Message.upstream_metadata_ack m)
  from_fields (Autogen.Message.downstream_metadata p) = do
    m ← downstream_metadata_wire o p
    ok (Message.downstream_metadata m)
  from_fields (Autogen.Message.downstream_metadata_ack p) = do
    m ← downstream_metadata_ack_wire o p
    ok (Message.downstream_metadata_ack m)

  unfoldable pub proto_to_wire : P → Outcome (Message T)
  proto_to_wire p = elim (o.read p) [ none ↦ malformed | some f ↦ from_fields f ]
