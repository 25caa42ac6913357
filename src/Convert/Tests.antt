-- ===== src/Convert/Tests.antt =====
-- Tests and witnesses of the conversion.
mod Concrete
use iscp_go.Prelude.{ℕ, ◌≡◌, refl, arith, Option, none, some, List, [], ◌∷◌}
use iscp_go.Convert.Outcome.{ok, malformed, panicked, ◌>>=◌}
use iscp_go.Convert.Codes.{ResultCode, code_name, code_of_name}
use iscp_go.Convert.Messages.{Message, DownstreamChunkAck}
use iscp_go.Convert.Autogen
use iscp_go.Convert.Errors.{wire_to_proto-Decides}
use iscp_go.Convert.Errors.Accepting.{Decides}
use iscp_go.Convert.Errors.Sendable.{sendable}
use iscp_go.Convert.Crossing.{nil_info_panics}
use iscp_go.Convert.RoundTrip.{converted_message_returns}
use iscp_go.Convert.ToProto.{fields, wire_to_proto}
use iscp_go.Convert.ToProto.Parts.{to_result_code_proto, to_empty_fields_proto}
use iscp_go.Convert.ToProto.Control.{disconnect_proto}
use iscp_go.Convert.ToWire.{from_fields, proto_to_wire}
use iscp_go.Convert.ToWire.Parts.{to_result_code, to_empty_fields}
use iscp_go.Convert.ToWire.Control.{disconnect_wire}
use iscp_go.Convert.Tests.Concrete.{outside, outside-IsLawful, nth, place}

abbrev stream : List ℕ
stream = 1 ∷ 2 ∷ 3 ∷ 4 ∷ 5 ∷ 6 ∷ 7 ∷ 8 ∷ 9 ∷ 10 ∷ 11 ∷ 12 ∷ 13 ∷ 14 ∷ 15 ∷ 16 ∷ []

abbrev ack : DownstreamChunkAck
ack = record {
  stream_id_alias = 7;
  ack_id = 3;
  results =
      record {
        stream_id_of_upstream = stream;
        sequence_number_in_upstream = 12;
        result_code = ResultCode.stream_not_found;
        result_string = "gone";
        extension_fields = some (record {});
      }
      ∷ [];
  upstream_aliases =
      (2, some (record { session_id = "s"; source_node_id = "n"; stream_id = stream })) ∷ [];
  data_id_aliases = (5, record { name = "speed"; type_name = "float" }) ∷ [];
  extension_fields = none;
}

converted_message_returns_example :
    (wire_to_proto outside (Message.downstream_chunk_ack ack) >>= proto_to_wire outside)
    ≡ ok (Message.downstream_chunk_ack ack)
converted_message_returns_example =
    converted_message_returns outside-IsLawful (Message.downstream_chunk_ack ack)
      (((tt, refl), tt), (refl, tt))

wire_to_proto-Decides_example :
    Decides
      (sendable {T = Option ℕ} (Message.downstream_chunk_ack ack))
      (wire_to_proto outside (Message.downstream_chunk_ack ack))
wire_to_proto-Decides_example = wire_to_proto-Decides outside (Message.downstream_chunk_ack ack)

-- One result with a stream ID of two bytes.
abbrev short_id : Option Autogen.Message
short_id = some (
    Autogen.Message.downstream_chunk_ack (record {
      stream_id_alias = 7;
      ack_id = 3;
      results =
          record {
            stream_id_of_upstream = 1 ∷ 2 ∷ [];
            sequence_number_in_upstream = 12;
            result_code = 0;
            result_string = "";
            extension_fields = none;
          }
          ∷ [];
      upstream_aliases = [];
      data_id_aliases = [];
      extension_fields = none;
    }))

nil_info_panics_example :
    (wire_to_proto outside
        (Message.downstream_chunk_ack (record ack { upstream_aliases = (4, none) ∷ [] }))
      >>= proto_to_wire outside)
    ≡ panicked
nil_info_panics_example = nil_info_panics outside-IsLawful ack 4 [] ((tt, refl), tt)

-- A code that is no constant is refused, and a normal closure comes back as a success.
abbrev closing : ResultCode → Message (Option ℕ)
closing c =
    Message.disconnect
      (record { result_code = c; result_string = "bye"; extension_fields = some (record {}) })

unknown_code_refused : wire_to_proto outside (closing (ResultCode.other 0)) ≡ malformed
unfolding wire_to_proto fields disconnect_proto to_result_code_proto code_name
unknown_code_refused = refl

normal_closure_lost :
    (wire_to_proto outside (closing ResultCode.normal_closure) >>= proto_to_wire outside)
    ≡ ok (closing ResultCode.succeeded)
unfolding wire_to_proto proto_to_wire fields from_fields disconnect_proto disconnect_wire
    to_result_code_proto to_result_code code_name code_of_name to_empty_fields_proto to_empty_fields
    nth place
normal_closure_lost = refl
