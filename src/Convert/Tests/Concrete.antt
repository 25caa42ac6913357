-- ===== src/Convert/Tests/Concrete.antt =====
-- The packages outside of the repository as concrete functions: constants by their place in a list,
-- nanoseconds for a time, and a text of strokes for a UUID.
use iscp_go.Prelude.{ℕ, zero, suc, String, ◌/◌, ◌%◌, ◌^◌, ◌≡◌, refl, ap, Bool, true, false}
use iscp_go.Prelude.{
  Option, none, some, List, [], ◌∷◌, length, ◌==◌, if◌then◌else◌, arith, nat_eq, nat_beq_iff,
}
use Prim.Native.Char.{code}
use iscp_go.Convert.Codes.{CodeName, QosName}
use iscp_go.Convert.Autogen
use iscp_go.Convert.Outside.{Outside, IsLawful}

unfoldable pub nth {ℓ} : {A : Type ℓ} → List A → ℕ → Option A
nth [] k = none
nth (x ∷ xs) zero = some x
nth (x ∷ xs) (suc k) = nth xs k

abbrev pub names : List CodeName
names =
    CodeName.succeeded ∷ CodeName.incompatible_version ∷ CodeName.maximum_data_id_alias
    ∷ CodeName.maximum_upstream_alias ∷ CodeName.unspecified_error ∷ CodeName.no_node_id
    ∷ CodeName.auth_failed ∷ CodeName.connect_timeout ∷ CodeName.malformed_message
    ∷ CodeName.protocol_error ∷ CodeName.ack_timeout ∷ CodeName.invalid_payload
    ∷ CodeName.invalid_data_id ∷ CodeName.invalid_data_id_alias ∷ CodeName.invalid_data_filter
    ∷ CodeName.stream_not_found ∷ CodeName.resume_request_conflict ∷ CodeName.process_failed
    ∷ CodeName.desired_qos_not_supported ∷ CodeName.ping_timeout ∷ CodeName.too_large_message_size
    ∷ CodeName.too_many_data_id_aliases ∷ CodeName.too_many_streams ∷ CodeName.too_long_ack_interval
    ∷ CodeName.too_many_downstream_filters ∷ CodeName.too_many_data_filters
    ∷ CodeName.too_long_expiry_interval ∷ CodeName.too_long_ping_timeout
    ∷ CodeName.too_short_ping_interval ∷ CodeName.too_short_ping_timeout ∷ CodeName.node_id_mismatch
    ∷ CodeName.rate_limit_reached ∷ CodeName.session_not_found ∷ CodeName.session_already_closed
    ∷ CodeName.session_cannot_closed ∷ CodeName.invalid_resume_token ∷ []

unfoldable pub place : CodeName → ℕ
place CodeName.succeeded = 0
place CodeName.incompatible_version = 1
place CodeName.maximum_data_id_alias = 2
place CodeName.maximum_upstream_alias = 3
place CodeName.unspecified_error = 4
place CodeName.no_node_id = 5
place CodeName.auth_failed = 6
place CodeName.connect_timeout = 7
place CodeName.malformed_message = 8
place CodeName.protocol_error = 9
place CodeName.ack_timeout = 10
place CodeName.invalid_payload = 11
place CodeName.invalid_data_id = 12
place CodeName.invalid_data_id_alias = 13
place CodeName.invalid_data_filter = 14
place CodeName.stream_not_found = 15
place CodeName.resume_request_conflict = 16
place CodeName.process_failed = 17
place CodeName.desired_qos_not_supported = 18
place CodeName.ping_timeout = 19
place CodeName.too_large_message_size = 20
place CodeName.too_many_data_id_aliases = 21
place CodeName.too_many_streams = 22
place CodeName.too_long_ack_interval = 23
place CodeName.too_many_downstream_filters = 24
place CodeName.too_many_data_filters = 25
place CodeName.too_long_expiry_interval = 26
place CodeName.too_long_ping_timeout = 27
place CodeName.too_short_ping_interval = 28
place CodeName.too_short_ping_timeout = 29
place CodeName.node_id_mismatch = 30
place CodeName.rate_limit_reached = 31
place CodeName.session_not_found = 32
place CodeName.session_already_closed = 33
place CodeName.session_cannot_closed = 34
place CodeName.invalid_resume_token = 35

unfoldable pub qos_place : QosName → ℕ
qos_place QosName.unreliable = 0
qos_place QosName.reliable = 1
qos_place QosName.partial = 2

unfoldable pub strokes : ℕ → String → String
strokes zero s = String.◌∷◌ ";" s
strokes (suc n) s = String.◌∷◌ "1" (strokes n s)

unfoldable pub text : List ℕ → String
text [] = ""
text (b ∷ bs) = strokes b (text bs)

unfoldable pub count_up : List ℕ → List ℕ
count_up [] = []
count_up (b ∷ bs) = suc b ∷ bs

unfoldable pub counts : String → List ℕ
counts String.[] = []
counts (String.◌∷◌ c s) = let rest = counts s in if code c == 59 then 0 ∷ rest else count_up rest

counts-strokes : (n : ℕ) (s : String) → counts (strokes n s) ≡ n ∷ counts s
unfolding counts strokes count_up
counts-strokes zero s = refl
counts-strokes (suc n) s = ap count_up (counts-strokes n s)

counts-text : (b : List ℕ) → counts (text b) ≡ b
unfolding counts text
counts-text [] = refl
counts-text (b ∷ bs) = cc (counts-strokes b (text bs), counts-text bs)

abbrev pub if_sixteen : List ℕ → Option (List ℕ)
if_sixteen b = if length b == 16 then some b else none

abbrev pub nano_of : Option ℕ → ℕ
nano_of none = 0
nano_of (some n) = n

abbrev pub unset : Option ℕ → Bool
unset none = true
unset (some n) = false

abbrev pub outside : Outside (Option ℕ) (Option Autogen.Message)
outside = record {
  make = λ f. some f;
  read = λ p. p;
  result_code = place;
  result_code_name = nth names;
  qos = qos_place;
  qos_name = nth (QosName.unreliable ∷ QosName.reliable ∷ QosName.partial ∷ []);
  seconds = λ d. d / 1_000_000_000 % 2 ^ 32;
  milliseconds = λ d. d / 1_000_000 % 2 ^ 32;
  is_zero = unset;
  unix_nano = nano_of;
  unix = λ n. some n;
  from_bytes = if_sixteen;
  uuid_string = text;
  uuid_parse = λ s. some (counts s);
}

place-named : (n : CodeName) → nth names (place n) ≡ some n
unfolding nth place
place-named CodeName.succeeded = refl
place-named CodeName.incompatible_version = refl
place-named CodeName.maximum_data_id_alias = refl
place-named CodeName.maximum_upstream_alias = refl
place-named CodeName.unspecified_error = refl
place-named CodeName.no_node_id = refl
place-named CodeName.auth_failed = refl
place-named CodeName.connect_timeout = refl
place-named CodeName.malformed_message = refl
place-named CodeName.protocol_error = refl
place-named CodeName.ack_timeout = refl
place-named CodeName.invalid_payload = refl
place-named CodeName.invalid_data_id = refl
place-named CodeName.invalid_data_id_alias = refl
place-named CodeName.invalid_data_filter = refl
place-named CodeName.stream_not_found = refl
place-named CodeName.resume_request_conflict = refl
place-named CodeName.process_failed = refl
place-named CodeName.desired_qos_not_supported = refl
place-named CodeName.ping_timeout = refl
place-named CodeName.too_large_message_size = refl
place-named CodeName.too_many_data_id_aliases = refl
place-named CodeName.too_many_streams = refl
place-named CodeName.too_long_ack_interval = refl
place-named CodeName.too_many_downstream_filters = refl
place-named CodeName.too_many_data_filters = refl
place-named CodeName.too_long_expiry_interval = refl
place-named CodeName.too_long_ping_timeout = refl
place-named CodeName.too_short_ping_interval = refl
place-named CodeName.too_short_ping_timeout = refl
place-named CodeName.node_id_mismatch = refl
place-named CodeName.rate_limit_reached = refl
place-named CodeName.session_not_found = refl
place-named CodeName.session_already_closed = refl
place-named CodeName.session_cannot_closed = refl
place-named CodeName.invalid_resume_token = refl

qos_place-named :
    (n : QosName)
    → nth (QosName.unreliable ∷ QosName.reliable ∷ QosName.partial ∷ []) (qos_place n) ≡ some n
unfolding nth qos_place
qos_place-named QosName.unreliable = refl
qos_place-named QosName.reliable = refl
qos_place-named QosName.partial = refl

pub outside-IsLawful : IsLawful outside
outside-IsLawful = record {
  read-make = λ f. refl;
  code-named = place-named;
  qos-named = qos_place-named;
  seconds-whole = λ n h. omega arith;
  milliseconds-whole = λ n h. omega arith;
  unix-set = λ n h. refl;
  nano-unix = λ n h. refl;
  bytes-read = λ b h. ground (arith, nat_beq_iff (length b) 16);
  bytes-refused = λ b h. ground (arith, nat_beq_iff (length b) 16);
  text-read = λ b h. ap some (counts-text b);
}
