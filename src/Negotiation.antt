-- ===== src/Negotiation.antt =====
-- transport/negotiation.go: the parameters that a client and a server agree on before they connect, with the
-- compression of transport/compress/compress.go. An `int` of Go is an integer; the conversion to and from
-- key values goes through the library encoding/json and is left out.
pub mod Compression
mod Tests
use iscp_go.Prelude.{
  ℕ, Option, none, some, Bool, true, false, ◌||◌, String, string_eq, ltb, ◌==◌, nat_eq,
  if◌then◌else◌,
}

-- n, and -(n + 1).
pub data ℤ : Type 0 where
  pos : ℕ → ℤ
  negsuc : ℕ → ℤ

-- Not from 0 to a limit.
abbrev pub out_of : ℕ → ℤ → Bool
out_of limit (pos n) = ltb limit n
out_of limit (negsuc n) = true

abbrev pub not_positive : Option ℤ → Bool
not_positive none = false
not_positive (some (pos n)) = n == 0
not_positive (some (negsuc n)) = true

abbrev pub is_zero : ℤ → Bool
is_zero (pos n) = n == 0
is_zero (negsuc n) = false

pub record NegotiationParams : Type 0 where
  pub encoding : String
  pub compress : String
  pub compress_level : Option ℤ
  pub compress_window_bits : Option ℤ
  pub transport_id : String
  pub transport_group_id : String
  pub ping_interval : Option ℤ
  pub read_timeout : Option ℤ

pub data ValidateError : Type 0 where
  unknown_encoding unknown_level invalid_window_bits unknown_compress : ValidateError
  bad_ping_interval bad_read_timeout : ValidateError

-- The parameters with the level that `Validate` fills in, or its error.
pub data Validated : Type 0 where
  valid : NegotiationParams → Validated
  invalid : ValidateError → Validated

abbrev pub per_message : String
per_message = "per-message"

abbrev pub context_take_over : String
context_take_over = "context-takeover"

abbrev pub default_compression_level : ℤ
default_compression_level = pos 6

unfoldable pub check_window : Option ℤ → NegotiationParams → Validated
check_window none p = valid p
check_window (some bits) p = if out_of 32 bits then invalid invalid_window_bits else valid p

unfoldable pub check_level : Option ℤ → NegotiationParams → Validated
unfolding check_window
check_level none p =
    check_window p.compress_window_bits
      (record p { compress_level = some default_compression_level })
check_level (some level) p =
    if out_of 9 level then invalid unknown_level else check_window p.compress_window_bits p

unfoldable pub check_compress : NegotiationParams → Validated
unfolding check_level
check_compress p =
    if p.compress == ""
    then valid p
    else if p.compress == per_message || p.compress == context_take_over
    then check_level p.compress_level p
    else invalid unknown_compress

unfoldable pub check_times : Validated → Validated
check_times (invalid e) = invalid e
check_times (valid p) =
    if not_positive p.ping_interval
    then invalid bad_ping_interval
    else if not_positive p.read_timeout
    then invalid bad_read_timeout
    else valid p

unfoldable pub validate : NegotiationParams → Validated
unfolding check_compress check_times
validate p =
    if p.encoding == "" || (p.encoding == "json" || p.encoding == "proto")
    then check_times (check_compress p)
    else invalid unknown_encoding

-- compress.Config
pub record Config : Type 0 where
  pub enable : Bool
  pub level : ℤ
  pub disable_context_takeover : Bool
  pub window_bits : ℤ

abbrev pub or_base : ℤ → Option ℤ → ℤ
or_base base none = base
or_base base (some z) = z

unfoldable pub enabled_config : NegotiationParams → Config → ℤ → Config
enabled_config p base level = record {
  enable = true;
  level = level;
  disable_context_takeover =
      (if p.compress == per_message
        then true
        else if p.compress == context_take_over
        then false
        else base.disable_context_takeover);
  window_bits = or_base base.window_bits p.compress_window_bits;
}

unfoldable pub config_at : Option ℤ → NegotiationParams → Config → Config
unfolding enabled_config
config_at none p base = record base { enable = false }
config_at (some level) p base =
    if is_zero level then record base { enable = false } else enabled_config p base level

unfoldable pub compress_config : NegotiationParams → Config → Config
unfolding config_at
compress_config p base = config_at p.compress_level p base

-- `Config.Type`
unfoldable pub config_type : Config → String
config_type c = if c.disable_context_takeover then per_message else context_take_over
