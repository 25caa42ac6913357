-- ===== src/Wire/Handshake.antt =====
-- `Connect`: the handshake of a client, and the versions of the protocol that it accepts. What the transport
-- writes and reads is an argument; golang.org/x/mod/semver is a parameter. Durations are numbers of
-- nanoseconds. The watchdog, which closes the transport, is a write or a read that fails.
pub mod Versions
use iscp_go.Prelude.{ℕ, Bool, true, false, not, ◌&&◌, ◌||◌, ◌==◌, nat_eq, String, if◌then◌else◌}
use Prim.Native.String.{◌++◌}

-- The result of `semver.Compare`: -1, 0 or 1.
pub data Order : Type 0 where
  below : Order
  same : Order
  above : Order

abbrev pub at_least : Order → Bool
at_least below = false
at_least same = true
at_least above = true

abbrev pub min_acceptable_version : String
min_acceptable_version = "v2.0.0"

abbrev pub max_acceptable_version : String
max_acceptable_version = "v3.1.0"

abbrev pub resume_token_min_version : String
resume_token_min_version = "v3.0.0"

-- The durations 10 s and 1 s, for the client and for the server.
abbrev pub default_ping_interval : ℕ
default_ping_interval = 10000000000

abbrev pub default_ping_timeout : ℕ
default_ping_timeout = 1000000000

abbrev pub or_default : ℕ → ℕ → ℕ
or_default default duration = if duration == 0 then default else duration

-- What the first `Read` gives.
pub data FirstRead : Type 0 where
  read_failed : FirstRead
  connect_response : ℕ → String → FirstRead
  disconnect : FirstRead
  other_message : FirstRead

pub data ConnectError : Type 0 where
  write_error : ConnectError
  read_error : ConnectError
  disconnected : ConnectError
  invalid_message : ConnectError
  unauthorized : ConnectError
  unsupported_protocol_version : String → ConnectError
  failed_message : ℕ → ConnectError

-- The connection: the version of the server, and the interval and timeout of its pings.
pub record ClientConn : Type 0 where
  pub protocol_version : String
  pub ping_interval : ℕ
  pub ping_timeout : ℕ

pub data Connected : Type 0 where
  connected : ClientConn → Connected
  not_connected : ConnectError → Connected

-- `ResultCodeSucceeded` and `ResultCodeAuthFailed`
abbrev pub code_succeeded : ℕ
code_succeeded = 1

abbrev pub code_auth_failed : ℕ
code_auth_failed = 8

module _ (is_valid : String → Bool) (compare : String → String → Order) where
  unfoldable pub is_acceptable_protocol_version : String → Bool
  is_acceptable_protocol_version version =
      let v = "v" ++ version in
      if not (is_valid v)
      then false
      else at_least (compare v min_acceptable_version)
        && not (at_least (compare v max_acceptable_version))

  unfoldable pub supports_resume_token : ClientConn → Bool
  supports_resume_token c = at_least (compare ("v" ++ c.protocol_version) resume_token_min_version)

  unfoldable pub judge_response : ℕ → ℕ → ℕ → String → Connected
  judge_response interval timeout code version =
      if code == code_auth_failed
      then not_connected unauthorized
      else if code == code_succeeded || code == 0
      then (if is_acceptable_protocol_version version
          then connected (record {
            protocol_version = version;
            ping_interval = interval;
            ping_timeout = timeout;
          })
          else not_connected (unsupported_protocol_version version))
      else not_connected (failed_message code)

  unfoldable pub after_read : ℕ → ℕ → FirstRead → Connected
  after_read interval timeout read_failed = not_connected read_error
  after_read interval timeout disconnect = not_connected disconnected
  after_read interval timeout other_message = not_connected invalid_message
  after_read interval timeout (connect_response code version) =
      judge_response interval timeout code version

  -- The configured interval and timeout, whether the request could be written, and what is read then.
  unfoldable pub connect : ℕ → ℕ → Bool → FirstRead → Connected
  unfolding after_read
  connect ping_interval ping_timeout written first =
      if written
      then after_read (or_default default_ping_interval ping_interval)
          (or_default default_ping_timeout ping_timeout) first
      else not_connected write_error
