-- ===== src/Reconnect/Control.antt =====
-- transport/reconnect/pingpong.go: the control messages between two reconnecting transports. A byte string is
-- a list of numbers; the big-endian number is that of encoding/binary.
pub mod Laws
use iscp_go.Prelude.{
  ℕ, List, [], ◌∷◌, ◌++◌, Bool, true, false, ◌&&◌, not, leb, ◌==◌, nat_eq, if◌then◌else◌,
}
use iscp_go.Segment.Format.{put_uint32, uint32}

-- ControlMessage
pub data ControlMessage : Type 0 where
  ping pong : ℕ → ControlMessage

abbrev pub get_sequence : ControlMessage → ℕ
get_sequence (ping n) = n
get_sequence (pong n) = n

abbrev pub magic_byte : ℕ
magic_byte = 255

-- `MarshalBinary` of either type
unfoldable pub marshal_binary : ControlMessage → List ℕ
unfolding put_uint32
marshal_binary (ping n) = magic_byte ∷ 0 ∷ put_uint32 n
marshal_binary (pong n) = magic_byte ∷ 1 ∷ put_uint32 n

pub data ParseError : Type 0 where
  no_type too_short : ParseError
  reserved_type : ℕ → ParseError

-- The three kinds of result of `TryParseControlMessage`.
pub data Parsed : Type 0 where
  control : ControlMessage → Parsed
  not_control : Parsed
  protocol_error : ParseError → Parsed

-- From the switch on the type on.
unfoldable pub parse_sequence : ℕ → ℕ → Parsed
parse_sequence msg_type seq =
    if msg_type == 0
    then control (ping seq)
    else if msg_type == 1
    then control (pong seq)
    else not_control

-- After the look at the type.
unfoldable pub parse_rest : ℕ → List ℕ → Parsed
unfolding parse_sequence
parse_rest msg_type (s0 ∷ s1 ∷ s2 ∷ s3 ∷ extra) = parse_sequence msg_type (uint32 s0 s1 s2 s3)
parse_rest msg_type _ = protocol_error too_short

unfoldable pub parse_type : List ℕ → Parsed
unfolding parse_rest
parse_type [] = protocol_error no_type
parse_type (msg_type ∷ rest) =
    if leb 2 msg_type && leb msg_type 15
    then protocol_error (reserved_type msg_type)
    else parse_rest msg_type rest

unfoldable pub try_parse_control_message : List ℕ → Parsed
unfolding parse_type
try_parse_control_message [] = not_control
try_parse_control_message (b ∷ rest) = if b == magic_byte then parse_type rest else not_control

-- What `UnmarshalBinary` returns.
pub data Unmarshalled : Type 0 where
  sequence_of : ℕ → Unmarshalled
  parse_failed : ParseError → Unmarshalled
  not_control_message wrong_message : Unmarshalled

abbrev as_ping : Parsed → Unmarshalled
as_ping (control (ping n)) = sequence_of n
as_ping (control (pong n)) = wrong_message
as_ping not_control = not_control_message
as_ping (protocol_error e) = parse_failed e

abbrev as_pong : Parsed → Unmarshalled
as_pong (control (pong n)) = sequence_of n
as_pong (control (ping n)) = wrong_message
as_pong not_control = not_control_message
as_pong (protocol_error e) = parse_failed e

unfoldable pub unmarshal_ping : List ℕ → Unmarshalled
unmarshal_ping bs = as_ping (try_parse_control_message bs)

unfoldable pub unmarshal_pong : List ℕ → Unmarshalled
unmarshal_pong bs = as_pong (try_parse_control_message bs)
