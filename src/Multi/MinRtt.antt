-- ===== src/Multi/MinRtt.antt =====
-- transport/multi/minrtt_selector.go. The transports of the selector are a map whose order is that of
-- the iteration.
pub mod Choice
use iscp_go.Prelude.{
  ℕ, List, [], ◌∷◌, Option, none, some, Bool, true, false, ◌&&◌, ◌||◌, not, ltb, ◌==◌, nat_eq,
  string_eq, if◌then◌else◌, length, Map, lookup, insert,
}
use iscp_go.Multi.Transports.{TransportId, no_id, TransportMap, select_available}
use iscp_go.Multi.Info.{TransportInfo, min_rtt, smoothed_rtt, rtt_to_microseconds, refreshed}
use iscp_go.Multi.Stats.{Stats, record_selection, max_u64}

pub record MinRttSelector : Type 0 where
  pub transports : Map TransportId TransportInfo
  pub stats : Stats

-- `UpdateTransport`
unfoldable pub update_transport : MinRttSelector → TransportId → TransportInfo → MinRttSelector
update_transport s id info = record s {
  transports = insert id (refreshed (lookup id s.transports) info) s.transports;
}

-- `selectedID, minRTT, minSmoothedRTT`, or the three variables of the fallback
pub record Candidate : Type 0 where
  pub id : TransportId
  pub base : ℕ
  pub smoothed : ℕ

-- `var selectedID` and the largest uint64 twice
abbrev pub no_candidate : Candidate
no_candidate = record { id = no_id; base = max_u64; smoothed = max_u64 }

-- The body of either `if`.
unfoldable pub better : Candidate → TransportId → TransportInfo → Candidate
better c id info =
    let current_min_rtt = rtt_to_microseconds (min_rtt info) in
    let current_smoothed_rtt = rtt_to_microseconds (smoothed_rtt info) in
    if ltb current_min_rtt c.base
      || (current_min_rtt == c.base) && ltb current_smoothed_rtt c.smoothed
    then record { id = id; base = current_min_rtt; smoothed = current_smoothed_rtt }
    else c

-- The loop over the transports: the candidate that may send, and the fallback.
unfoldable pub scan : Candidate → Candidate → Map TransportId TransportInfo → Candidate × Candidate
scan selected fallback [] = (selected, fallback)
scan selected fallback ((id, info) ∷ rest) =
    scan (if info.sending_allowed then better selected id info else selected)
      (better fallback id info) rest

unfoldable pub choose : Map TransportId TransportInfo → TransportId
unfolding scan
choose [] = no_id
choose ((id, info) ∷ []) = id
choose ((id, info) ∷ (id', info') ∷ rest) =
    let (selected, fallback) = scan no_candidate no_candidate ((id, info) ∷ (id', info') ∷ rest) in
    if selected.id == no_id then fallback.id else selected.id

-- `selectTransportMinRTT`: with one transport the code records it also if its name is empty.
unfoldable pub select_transport_min_rtt : MinRttSelector → MinRttSelector × TransportId
unfolding choose
select_transport_min_rtt s =
    let id = choose s.transports in
    if (id == no_id) && not (length s.transports == 1)
    then (s, id)
    else (record s { stats = record_selection s.stats id }, id)

-- `Get`, with the states of the transports where a multi-transport is set.
abbrev through : Option TransportMap → MinRttSelector × TransportId → MinRttSelector × TransportId
through none r = r
through (some ts) (s, id) = (s, select_available id ts)

unfoldable pub get : MinRttSelector → Option TransportMap → MinRttSelector × TransportId
get s mt = through mt (select_transport_min_rtt s)
