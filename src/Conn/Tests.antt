-- ===== src/Conn/Tests.antt =====
-- A close that comes while a reconnection dials.
use iscp_go.Storage.{find_upstream_by_id}
use iscp_go.Conn.Calls.{DownstreamCall, Calls, enter, subscribe_reply}
use iscp_go.Conn.Calls.Answers.{Answered, reply_reaches_caller}
use iscp_go.Conn.Streams.{
  Streams, has, upstream_ended, downstream_ended, unregister_all, close_streams,
}
use iscp_go.Conn.Streams.Closing.{has_ended, close_keeps_streams}
use iscp_go.Prelude.{
  if◌then◌else◌, lookup, insert, string_eq, ◌+◌, ◌*◌, none, some, arith, ℕ, ◌≡◌, refl, List, [],
  ◌∷◌, true, false, nat_eq,
}
use iscp_go.Status.{conn_status_eq, conn_closed, swap, compare_and_swap, compare_and_swap_not}
use iscp_go.Conn.Lifecycle.{
  idle, new_conn, Event, send_fails, reconnect_begins, old_closed, close_begins, dial_succeeds,
  close_ends, checked, begin_reconnect, close_old, dial_wire, check_closed, begin_close, close_wire,
  end_close, fail_send, run,
}
use iscp_go.Conn.Lifecycle.Leaks.{no_session_leaks}

abbrev events : List Event
events =
    send_fails ∷ reconnect_begins ∷ old_closed ∷ close_begins ∷ dial_succeeds ∷ close_ends ∷ checked
    ∷ []

closed : (run new_conn events).finished ≡ true
unfolding run new_conn begin_reconnect close_old dial_wire check_closed begin_close close_wire
    end_close fail_send swap compare_and_swap compare_and_swap_not
closed = refl

no_session_leaks_example :
    ((run new_conn events).state ≡ conn_closed)
    × ((run new_conn events).phase ≡ idle → (n : ℕ) → (run new_conn events).is_open n ≡ false)
no_session_leaks_example = no_session_leaks events closed

abbrev id_of : ℕ → ℕ
id_of p = p + 100

abbrev state_of : ℕ → ℕ
state_of p = p * 2

abbrev streams : Streams ℕ ℕ ℕ
streams = record {
  upstreams = 3 ∷ 4 ∷ [];
  downstreams = 5 ∷ [];
  repository = record { upstream = (103, 1) ∷ (104, 1) ∷ []; downstream = (105, 9) ∷ [] };
}

registered : has streams.upstreams 4 ≡ true
unfolding has
registered = refl

-- The upstream 4 ends before the upstreams are saved, and 3 after it.
close_keeps_streams_example :
    find_upstream_by_id
      (unregister_all id_of
        (close_streams id_of state_of state_of
          (upstream_ended 4 ∷ [])
          (downstream_ended 5 ∷ [])
          streams)
        (upstream_ended 3 ∷ [])).repository
      (id_of 4)
    ≡ (if has_ended 4 (upstream_ended 4 ∷ []) then none else some (state_of 4))
close_keeps_streams_example =
    close_keeps_streams id_of state_of state_of streams (upstream_ended 4 ∷ [])
      (downstream_ended 5 ∷ []) (upstream_ended 3 ∷ []) 4 (λ p q e. omega (arith, e)) registered

abbrev none_waiting : Calls ℕ
none_waiting = record {
  upstream_call_ack_ch = [];
  reply_call_chs = [];
  downstream_call_ch = [];
  reply_call_ch = [];
  acked = [];
  replied = [];
}

abbrev one_waiting : Calls ℕ
one_waiting = record none_waiting { reply_call_chs = ("a", 6) ∷ [] }

abbrev question : DownstreamCall ℕ
question = record { call_id = "q"; request_call_id = ""; body = 1 }

abbrev answer : DownstreamCall ℕ
answer = record { call_id = "r"; request_call_id = "a"; body = 2 }

waits : subscribe_reply none_waiting "a" 6 ≡ some one_waiting
unfolding subscribe_reply enter insert lookup
waits = refl

reply_reaches_caller_example :
    Answered one_waiting (question ∷ []) answer 6 × (lookup "a" none_waiting.reply_call_chs ≡ none)
reply_reaches_caller_example =
    reply_reaches_caller none_waiting one_waiting (question ∷ []) answer 6 refl waits
      ((λ q. let r = string_eq.same_iff "" "a" in let s = r.1 q in cc), tt)
