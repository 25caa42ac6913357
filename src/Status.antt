-- ===== src/Status.antt =====
-- iscp/state.go and iscp/stream_state.go: the status of a connection and that of a stream. Both files have the
-- same operations; each holds a mutex, so calls come one after the other. The broadcast wakes those who
-- wait, who then look at the status again.
pub mod Races
mod Tests
use iscp_go.Prelude.{◌≡◌, ◌↔◌, arith, refl, Bool, true, false, not, Comparable, ◌==◌, if◌then◌else◌}

-- connStatusValue
pub data ConnStatus : Type 0 where
  conn_connected conn_reconnecting conn_closed : ConnStatus

-- streamStatus
pub data StreamStatus : Type 0 where
  stream_connected stream_resuming stream_draining : StreamStatus

abbrev same_conn : ConnStatus → ConnStatus → Bool
same_conn conn_connected conn_connected = true
same_conn conn_reconnecting conn_reconnecting = true
same_conn conn_closed conn_closed = true
same_conn s t = false

pub same_conn_iff : (s t : ConnStatus) → (same_conn s t ≡ true) ↔ (s ≡ t)
same_conn_iff s t = ground arith

instance abbrev pub conn_status_eq : Comparable ConnStatus
conn_status_eq = record { same = same_conn; same_iff = same_conn_iff }

abbrev same_stream : StreamStatus → StreamStatus → Bool
same_stream stream_connected stream_connected = true
same_stream stream_resuming stream_resuming = true
same_stream stream_draining stream_draining = true
same_stream s t = false

pub same_stream_iff : (s t : StreamStatus) → (same_stream s t ≡ true) ↔ (s ≡ t)
same_stream_iff s t = ground arith

instance abbrev pub stream_status_eq : Comparable StreamStatus
stream_status_eq = record { same = same_stream; same_iff = same_stream_iff }

abbrev pub new_conn_state : ConnStatus
new_conn_state = conn_connected

abbrev pub new_stream_state : StreamStatus
new_stream_state = stream_connected

-- The new status, and the old one.
unfoldable pub swap {ℓ} : {S : Type ℓ} → S → S → S × S
swap current state = (state, current)

module _ {ℓ} {S : Type ℓ} ⦃c : Comparable S⦄ where
  -- The new status, and whether it was swapped.
  unfoldable pub compare_and_swap : S → S → S → S × Bool
  unfolding swap
  compare_and_swap current old new =
      if not (current == old) then (current, false) else ((swap current new).0, true)

  unfoldable pub compare_and_swap_not : S → S → S → S × Bool
  unfolding swap
  compare_and_swap_not current old new =
      if current == old then (current, false) else ((swap current new).0, true)
