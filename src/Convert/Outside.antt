-- ===== src/Convert/Outside.antt =====
-- What encoding/convert takes from packages that are not in the repository: the protobuf package
-- that the build generates, `time` and `github.com/google/uuid`. `T` is `time.Time` and `P` is
-- `*autogen.Message`.
use iscp_go.Prelude.{
  ℕ, String, ◌*◌, ◌^◌, ◌<◌, ◌≡◌, ◌≢◌, Bool, false, Option, none, some, List, length,
}
use iscp_go.Convert.Codes.{CodeName, QosName}
use iscp_go.Convert.Autogen

pub record Outside (T P : Type 0) : Type 0 where
  -- a message with these fields, and the fields of a message; `none` is a message with no case
  pub make : Autogen.Message → P
  pub read : P → Option Autogen.Message
  -- the constants, and the constant that a number is
  pub result_code : CodeName → ℕ
  pub result_code_name : ℕ → Option CodeName
  pub qos : QosName → ℕ
  pub qos_name : ℕ → Option QosName
  -- `uint32(d.Seconds())` and `uint32(d.Milliseconds())`
  pub seconds : ℕ → ℕ
  pub milliseconds : ℕ → ℕ
  -- `t.IsZero()`, `t.UnixNano()` and `time.Unix(0, n).UTC()`
  pub is_zero : T → Bool
  pub unix_nano : T → ℕ
  pub unix : ℕ → T
  -- `uuid.FromBytes(b)`, `u.String()` and `uuid.Parse(s)`
  pub from_bytes : List ℕ → Option (List ℕ)
  pub uuid_string : List ℕ → String
  pub uuid_parse : String → Option (List ℕ)

-- What those packages document.
pub record IsLawful {T P : Type 0} (o : Outside T P) : Type 0 where
  -- a literal holds what it was given
  pub read-make : (f : Autogen.Message) → o.read (o.make f) ≡ some f
  -- constants in one switch differ
  pub code-named : (n : CodeName) → o.result_code_name (o.result_code n) ≡ some n
  pub qos-named : (n : QosName) → o.qos_name (o.qos n) ≡ some n
  -- whole seconds and whole milliseconds are exact
  pub seconds-whole : (n : ℕ) → n < 2 ^ 32 → o.seconds (n * 1_000_000_000) ≡ n
  pub milliseconds-whole : (n : ℕ) → n < 2 ^ 32 → o.milliseconds (n * 1_000_000) ≡ n
  -- a time made from nanoseconds is never the zero time, and gives them back
  pub unix-set : (n : ℕ) → n < 2 ^ 64 → o.is_zero (o.unix n) ≡ false
  pub nano-unix : (n : ℕ) → n < 2 ^ 64 → o.unix_nano (o.unix n) ≡ n
  -- sixteen bytes are a UUID and no other number of bytes is, and the text of a UUID is read back
  pub bytes-read : (b : List ℕ) → length b ≡ 16 → o.from_bytes b ≡ some b
  pub bytes-refused : (b : List ℕ) → length b ≢ 16 → o.from_bytes b ≡ none
  pub text-read : (b : List ℕ) → length b ≡ 16 → o.uuid_parse (o.uuid_string b) ≡ some b
