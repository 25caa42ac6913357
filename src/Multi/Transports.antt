-- ===== src/Multi/Transports.antt =====
-- transport/multi/transport_selector.go, and the parts of transport.go that look at the states of the
-- transports. A transport of the map is read through its `Status()` alone, once in a call, so the map
-- is one from identifiers to states. The empty identifier stands for none, as in the code.
use Prim.Native.String.{String}
use iscp_go.Prelude.{
  ℕ, ◌+◌, [], ◌∷◌, Option, none, some, Bool, true, false, ◌&&◌, ltb, ◌==◌, nat_eq, string_eq,
  if◌then◌else◌, length, Map, lookup, erase,
}

abbrev pub TransportId : Type 0
TransportId = String

abbrev pub no_id : TransportId
no_id = ""

-- reconnect.Status
pub data Status : Type 0 where
  connected reconnecting disconnected connecting : Status

abbrev pub TransportMap : Type 0
TransportMap = Map TransportId Status

abbrev pub is_connected : Status → Bool
is_connected connected = true
is_connected _ = false

-- `StatusReconnecting, StatusConnecting`
abbrev pub is_pending : Status → Bool
is_pending reconnecting = true
is_pending connecting = true
is_pending _ = false

-- The loop of `SelectAvailableTransport`; what a `let` binds waits, so a connected transport ends it.
unfoldable pub fallback : TransportId → TransportMap → TransportId
fallback reconnecting_id [] = reconnecting_id
fallback reconnecting_id ((id, status) ∷ rest) =
    let later =
      fallback (if is_pending status && (reconnecting_id == no_id) then id else reconnecting_id)
        rest in
    if is_connected status then id else later

abbrev pub holds_connected : Option Status → Bool
holds_connected none = false
holds_connected (some status) = is_connected status

unfoldable pub select_available : TransportId → TransportMap → TransportId
unfolding fallback
select_available selected_id transports =
    if holds_connected (lookup selected_id transports)
    then selected_id
    else fallback no_id transports

-- MultiOverallStatus
pub data Overall : Type 0 where
  all_connected partially_connected all_reconnecting all_disconnected : Overall

pub record Counts : Type 0 where
  pub connected_count : ℕ
  pub reconnecting_count : ℕ
  pub disconnected_count : ℕ

abbrev count_status : Counts → Status → Counts
count_status c connected = record c { connected_count = c.connected_count + 1 }
count_status c reconnecting = record c { reconnecting_count = c.reconnecting_count + 1 }
count_status c connecting = record c { reconnecting_count = c.reconnecting_count + 1 }
count_status c disconnected = record c { disconnected_count = c.disconnected_count + 1 }

-- The loop of `updateOverallStatus`.
unfoldable pub count_all : Counts → TransportMap → Counts
count_all c [] = c
count_all c ((id, status) ∷ rest) = count_all (count_status c status) rest

unfoldable pub new_status : Counts → ℕ → Overall
new_status c total_count =
    if c.connected_count == total_count
    then all_connected
    else if ltb 0 c.connected_count
    then partially_connected
    else if ltb 0 c.reconnecting_count
    then all_reconnecting
    else all_disconnected

abbrev pub is_disconnected : Overall → Bool
is_disconnected all_disconnected = true
is_disconnected _ = false

-- The new overall status, and whether the transport is cancelled.
unfoldable pub update_overall_status : TransportMap → Overall × Bool
unfolding count_all new_status
update_overall_status [] = (all_disconnected, true)
update_overall_status ((id, status) ∷ rest) =
    let c =
      count_all (record { connected_count = 0; reconnecting_count = 0; disconnected_count = 0 })
        ((id, status) ∷ rest) in
    let s = new_status c (length ((id, status) ∷ rest)) in (s, is_disconnected s)

-- The reader of a transport ends, and takes it out of the map.
unfoldable pub reader_ended : TransportId → TransportMap → TransportMap
reader_ended id transports = erase id transports
