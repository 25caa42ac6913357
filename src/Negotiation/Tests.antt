-- ===== src/Negotiation/Tests.antt =====
-- Parameters that name a compression and no level.
use iscp_go.Prelude.{◌≡◌, refl, none, some, false}
use iscp_go.Negotiation.{
  pos, NegotiationParams, valid, per_message, check_window, check_level, check_compress,
  check_times, validate, Config, compress_config,
}
use iscp_go.Negotiation.Compression.{Bounded, validate-Bounded}

abbrev params : NegotiationParams
params = record {
  encoding = "json";
  compress = per_message;
  compress_level = none;
  compress_window_bits = some (pos 15);
  transport_id = "t";
  transport_group_id = "";
  ping_interval = some (pos 1000);
  read_timeout = none;
}

abbrev base : Config
base = record {
  enable = false;
  level = pos 0;
  disable_context_takeover = false;
  window_bits = pos 32;
}

accepted : validate params ≡ valid (record params { compress_level = some (pos 6) })
unfolding validate check_compress check_level check_window check_times
accepted = refl

validate-Bounded_example :
    Bounded (compress_config (record params { compress_level = some (pos 6) }) base)
validate-Bounded_example =
    validate-Bounded params (record params { compress_level = some (pos 6) }) base refl accepted
