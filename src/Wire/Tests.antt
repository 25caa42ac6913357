-- ===== src/Wire/Tests.antt =====
-- Small connections, and the theorems at them.
use iscp_go.Prelude.{
  length, ◌++◌, ◌≤◌, ℕ, ◌≡◌, ◌≢◌, ◌↔◌, String, string_eq, ◌==◌, if◌then◌else◌, refl, List, [], ◌∷◌,
  some, Bool, true, arith, Map, ◌∙◌, insert, lookup, nat_eq, lookup-insert_same,
  lookup-insert_other,
}
use iscp_go.Wire.Handshake.{
  Order, below, same, above, connect_response, ClientConn, connected, connect,
}
use iscp_go.Wire.Handshake.Versions.{Answers, Chosen, connect_iff}
use iscp_go.Wire.Queues.{
  ChannelEvent, dispatch_all, read_message, taken, received, kept, dispatch_all_lem,
}
use iscp_go.Wire.Requests.{new_requests, send_request, read_request, Event, sends, reply, run}
use iscp_go.Wire.Requests.Correlation.{id_of, AllCorrelated, AllOnce, replies_correlate}
use iscp_go.Wire.Requests.Answered.{reply_arrives}
use iscp_go.Wire.Upstreams.{
  Upstreams, unreliable, reliable, no_upstreams, open_upstream, close_upstream,
}
use iscp_go.Wire.Upstreams.Closing.{SameService, NoService, close_isolates}
use iscp_go.Wire.Downstreams.{Downstreams, close_downstream}
use iscp_go.Wire.Downstreams.Closing.{NoChannels, CanSubscribe, SameChannels, close_downstream_lem}

abbrev queues : Map ℕ (List ℕ)
queues = (5, 50 ∷ []) ∷ (6, []) ∷ []

abbrev traffic : List (ChannelEvent ℕ)
traffic =
    read_message 5 51 ∷ read_message 6 60 ∷ taken 5 ∷ taken 6 ∷ taken 6 ∷ read_message 5 52 ∷ []

dispatch_all_example :
    (q : List ℕ) × (lookup 5 (dispatch_all queues traffic) ≡ some q)
    × (received 5 queues traffic ++ q ≡ (50 ∷ []) ++ kept 5 1 traffic)
    × (length q ≤ 1024)
dispatch_all_example =
    dispatch_all_lem queues traffic 5 (50 ∷ []) (unfold lookup in refl) (omega arith)

abbrev calls : List Event
calls = sends ∷ sends ∷ reply 2 ∷ reply 2 ∷ reply 9 ∷ reply 0 ∷ []

replies_correlate_example :
    AllCorrelated (run new_requests calls).delivered × AllOnce (run new_requests calls).delivered
replies_correlate_example = replies_correlate calls

reply_arrives_example :
    (read_request
      (run (send_request (run new_requests (sends ∷ []))) (sends ∷ reply 0 ∷ []))
      (id_of (run new_requests (sends ∷ [])).calls)).delivered
    ≡ ((run new_requests (sends ∷ [])).calls, id_of (run new_requests (sends ∷ [])).calls)
      ∷ (run (send_request (run new_requests (sends ∷ []))) (sends ∷ reply 0 ∷ [])).delivered
reply_arrives_example =
    reply_arrives (sends ∷ []) (sends ∷ reply 0 ∷ []) (omega arith)
      ((unfold run send_request new_requests in λ q. omega arith), tt)

abbrev one : Upstreams ℕ ℕ
one = open_upstream true no_upstreams unreliable 100 7

abbrev two : Upstreams ℕ ℕ
two = open_upstream true one reliable 101 8

old_stream : lookup 100 two.aliases ≡ some 7
unfolding open_upstream no_upstreams
old_stream =
    lookup-insert_other 101 100 8 (insert 100 7 []) (λ q. omega arith) ∙ lookup-insert_same 100 7 []

abbrev chunk : ℕ
chunk = 3

close_isolates_example :
    NoService (close_upstream two 100) 7 chunk × SameService two (close_upstream two 100) 8 chunk
close_isolates_example = close_isolates two 100 7 8 chunk old_stream (λ q. omega (arith, q))

abbrev tables : Downstreams ℕ ℕ ℕ ℕ ℕ
tables = record {
  dps = (4, 40 ∷ []) ∷ (5, []) ∷ [];
  dps_unreliable = (4, []) ∷ [];
  ack_completes = (4, []) ∷ (5, []) ∷ [];
  metadata = (4, (1, []) ∷ []) ∷ [];
  stream_aliases = (200, 4) ∷ (201, 5) ∷ [];
}

close_downstream_example :
    NoChannels (close_downstream tables 200) 4
    × CanSubscribe true (close_downstream tables 200) 4
    × ((other : ℕ) → 4 ≢ other → SameChannels tables (close_downstream tables 200) other)
close_downstream_example = close_downstream_lem true tables 200 4 (unfold lookup in refl)

-- Versions compared where they are 2.0.0, 3.0.0 or 3.1.0.
abbrev compare_few : String → String → Order
compare_few v w = if v == w then same else if v == "v2.0.0" then below else above

abbrev any : String → Bool
any v = true

abbrev established : ClientConn
established = record {
  protocol_version = "2.0.0";
  ping_interval = 5000000000;
  ping_timeout = 1000000000;
}

connect_iff_example :
    (connect any compare_few 5000000000 0 true (connect_response 0 "2.0.0") ≡ connected established)
    ↔ ((true ≡ true)
        × Answers any compare_few (connect_response 0 "2.0.0") "2.0.0"
        × Chosen any compare_few 10000000000 5000000000 5000000000
        × Chosen any compare_few 1000000000 0 1000000000)
connect_iff_example =
    connect_iff any compare_few 5000000000 0 true (connect_response 0 "2.0.0") established
