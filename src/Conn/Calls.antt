-- ===== src/Conn/Calls.antt =====
-- iscp/e2e.go and the loops of iscp/conn.go that serve it: calls between nodes, their acknowledgements and their
-- replies. A channel of a caller, with room for one message, is known by a number; identifiers of calls are
-- strings, and what a call carries is a parameter.
pub mod Answers
use iscp_go.Prelude.{
  ℕ, List, [], ◌∷◌, Option, none, some, String, string_eq, ◌==◌, if◌then◌else◌, Map, lookup, insert,
  erase,
}
use mathlib.Core.Option
use iscp_go.Wire.Queues.{offer}

pub record DownstreamCall (Body : Type 0) : Type 0 where
  pub call_id : String
  pub request_call_id : String
  pub body : Body

-- The tables of callers, the two common channels, and what the channels of callers were sent.
pub record Calls (Body : Type 0) : Type 0 where
  pub upstream_call_ack_ch : Map String ℕ
  pub reply_call_chs : Map String ℕ
  pub downstream_call_ch : List (DownstreamCall Body)
  pub reply_call_ch : List (DownstreamCall Body)
  pub acked : List (ℕ × String)
  pub replied : List (ℕ × DownstreamCall Body)

-- `none` is the error that the identifier exists already.
unfoldable pub enter : Option ℕ → Map String ℕ → String → ℕ → Option (Map String ℕ)
enter (some other) table id ch = none
enter none table id ch = some (insert id ch table)

module _ {Body : Type 0} where
  -- `call` up to the write, with the new channel.
  unfoldable pub call : Calls Body → String → ℕ → Option (Calls Body)
  call c id ch =
      Option.map (λ table. record c { upstream_call_ack_ch = table })
        (enter (lookup id c.upstream_call_ack_ch) c.upstream_call_ack_ch id ch)

  unfoldable pub subscribe_reply : Calls Body → String → ℕ → Option (Calls Body)
  subscribe_reply c id ch =
      Option.map (λ table. record c { reply_call_chs = table })
        (enter (lookup id c.reply_call_chs) c.reply_call_chs id ch)

  unfoldable pub give_ack : Option ℕ → Calls Body → String → Calls Body
  give_ack none c id = c
  give_ack (some ch) c id = record c {
    upstream_call_ack_ch = erase id c.upstream_call_ack_ch;
    acked = (ch, id) ∷ c.acked;
  }

  -- One round of `readUpstreamCallAckLoop`.
  unfoldable pub read_upstream_call_ack : Calls Body → String → Calls Body
  unfolding give_ack
  read_upstream_call_ack c id = give_ack (lookup id c.upstream_call_ack_ch) c id

  unfoldable pub give_reply : Option ℕ → Calls Body → DownstreamCall Body → Calls Body
  give_reply none c dc = c
  give_reply (some ch) c dc = record c {
    reply_call_chs = erase dc.request_call_id c.reply_call_chs;
    replied = (ch, dc) ∷ c.replied;
  }

  -- One round of `readDownstreamCallLoop`.
  unfoldable pub read_downstream_call : Calls Body → DownstreamCall Body → Calls Body
  unfolding give_reply
  read_downstream_call c dc =
      if dc.request_call_id == ""
      then record c { downstream_call_ch = offer c.downstream_call_ch dc }
      else give_reply (lookup dc.request_call_id c.reply_call_chs)
          (record c { reply_call_ch = offer c.reply_call_ch dc }) dc

  unfoldable pub read_calls : Calls Body → List (DownstreamCall Body) → Calls Body
  read_calls c [] = c
  read_calls c (dc ∷ dcs) = read_calls (read_downstream_call c dc) dcs
