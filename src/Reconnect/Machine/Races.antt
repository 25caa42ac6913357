-- ===== src/Reconnect/Machine/Races.antt =====
-- What becomes of the status when two loops reconnect, or when a close comes between.
use iscp_go.Prelude.{ℕ, ◌≡◌, ◌≢◌, refl, [], some, Bool, true, false, arith, ◌==◌, nat_eq, beq_refl}
use iscp_go.Multi.Transports.{Status, connected, reconnecting}
use iscp_go.Reconnect.Machine.{
  Reconnecting, Attempted, connected_to, ReconnectResult, reconnected, reconnect, store_initial,
  done_process, close_with_status,
}

differs : (t old : ℕ) → old ≢ t → (t == old) ≡ false
differs t old n = ground arith

-- The state after a successful reconnect, and after one by a loop that is late.
abbrev pub renewed : Reconnecting → ℕ → Status → Reconnecting
renewed r new status' = record r {
  transport = some new;
  status = status';
  ping_seq = 0;
  pending_pongs = [];
}

-- A reconnect and its result.
abbrev pub outcome : Reconnecting → ReconnectResult → Reconnecting × ReconnectResult
outcome r result = (r, result)

reconnect_first :
    (r : Reconnecting) (old new : ℕ)
    → r.closed ≡ false
    → r.transport ≡ some old
    → reconnect r old (connected_to new) ≡ outcome (renewed r new connected) reconnected
unfolding reconnect
reconnect_first r old new c e = rw (c, e, beq_refl old) refl

reconnect_late :
    (r : Reconnecting) (old new : ℕ) (later : Attempted)
    → r.closed ≡ false
    → old ≢ new
    → reconnect (renewed r new connected) old later
      ≡ outcome (renewed r new reconnecting) reconnected
unfolding reconnect
reconnect_late r old new later c n = rw (c, differs new old n) refl

-- If two loops fail on the same transport, the first to reconnect gets a new one, and the second, which is told
-- that all is done, leaves the status at reconnecting, with the new transport in place.
pub reconnect_twice :
    (r : Reconnecting) (old new : ℕ) (later : Attempted)
    → r.closed ≡ false
    → r.transport ≡ some old
    → old ≢ new
    → reconnect (reconnect r old (connected_to new)).0 old later
      ≡ outcome (renewed r new reconnecting) reconnected
reconnect_twice r old new later c e n =
    rw (reconnect_first r old new c e) (reconnect_late r old new later c n)

-- A close that comes between the two steps of the initial connection, when it has stored its transport and has
-- not yet announced it, is overwritten: the status ends as connected, of a closed transport.
pub close_between :
    (is_closer : ℕ → Bool) (r : Reconnecting) (t : ℕ)
    → r.closed ≡ false
    → is_closer t ≡ true
    → done_process
        (close_with_status (store_initial is_closer r (connected_to t)).0)
        (store_initial is_closer r (connected_to t)).1
      ≡ record r { transport = some t; status = connected; closed = true }
unfolding store_initial done_process close_with_status
close_between is_closer r t c e = rw (c, e) refl
