-- ===== src/Conn/Lifecycle.antt =====
-- iscp/conn.go: connecting again, closing, and sends that fail, as steps that goroutines take in any order. A wire
-- connection is a session with a number, given at the dial; `is_open` says which sessions have not been
-- closed. One goroutine reconnects, and its place in `reconnect` is the phase. The part of `close` under
-- the mutex waits while `reconnect` holds it.
pub mod Sessions
pub mod Reconnecting
pub mod Leaks
use iscp_go.Prelude.{ℕ, zero, suc, List, [], ◌∷◌, Bool, true, false, ◌==◌, nat_eq, if◌then◌else◌}
use iscp_go.Status.{
  ConnStatus, conn_status_eq, conn_connected, conn_reconnecting, conn_closed, swap,
  compare_and_swap, compare_and_swap_not,
}

pub data Phase : Type 0 where
  idle : Phase
  closing_old : ℕ → Phase
  dialing : Phase
  dialled : ℕ → Phase
  -- The mutex is held in these two.
  assigning : ℕ → Phase
  swapping : Phase

pub record Conn : Type 0 where
  pub state : ConnStatus
  pub wire_conn : ℕ
  pub phase : Phase
  pub closes_waiting : ℕ
  pub finished : Bool
  pub is_open : ℕ → Bool
  pub dials : ℕ

abbrev pub shut : ℕ → (ℕ → Bool) → ℕ → Bool
shut n is_open k = if k == n then false else is_open k

abbrev pub opened : ℕ → (ℕ → Bool) → ℕ → Bool
opened n is_open k = if k == n then true else is_open k

-- What `ConnectWithConfig` makes of the first session.
unfoldable pub new_conn : Conn
new_conn = record {
  state = conn_connected;
  wire_conn = 0;
  phase = idle;
  closes_waiting = 0;
  finished = false;
  is_open = opened 0 (λ n. false);
  dials = 1;
}

pub data Event : Type 0 where
  reconnect_begins old_closed dial_succeeds gives_up checked assigned swapped : Event
  close_begins close_ends send_fails : Event
  session_ends : ℕ → Event

-- `reconnect`, in the stretches between which others may run.
unfoldable pub begin_reconnect : Phase → Conn → Conn
begin_reconnect idle c =
    let (state, done) = compare_and_swap_not c.state conn_closed conn_reconnecting in
    if done then record c { state = state; phase = closing_old c.wire_conn } else c
begin_reconnect p c = c

unfoldable pub close_old : Phase → Conn → Conn
close_old (closing_old old) c = record c { is_open = shut old c.is_open; phase = dialing }
close_old p c = c

unfoldable pub dial_wire : Phase → Conn → Conn
dial_wire dialing c = record c {
  is_open = opened c.dials c.is_open;
  phase = dialled c.dials;
  dials = suc c.dials;
}
dial_wire p c = c

unfoldable pub give_up : Phase → Conn → Conn
give_up dialing c = record c { phase = idle }
give_up p c = c

unfoldable pub check_closed : Phase → Conn → Conn
check_closed (dialled res) c =
    if c.state == conn_closed
    then record c { is_open = shut res c.is_open; phase = idle }
    else record c { phase = assigning res }
check_closed p c = c

unfoldable pub assign_wire : Phase → Conn → Conn
assign_wire (assigning res) c = record c { wire_conn = res; phase = swapping }
assign_wire p c = c

unfoldable pub finish_reconnect : Phase → Conn → Conn
finish_reconnect swapping c = record c {
  state = (compare_and_swap c.state conn_reconnecting conn_connected).0;
  phase = idle;
}
finish_reconnect p c = c

-- `close`: the swap, and what it does under the mutex.
unfoldable pub begin_close : Conn → Conn
begin_close c = record c {
  state = (swap c.state conn_closed).0;
  closes_waiting = suc c.closes_waiting;
}

unfoldable pub close_wire : ℕ → Conn → Conn
close_wire zero c = c
close_wire (suc k) c = record c {
  is_open = shut c.wire_conn c.is_open;
  closes_waiting = k;
  finished = true;
}

unfoldable pub end_close : Phase → Conn → Conn
unfolding close_wire
end_close (assigning res) c = c
end_close swapping c = c
end_close p c = close_wire c.closes_waiting c

-- A send that finds its session closed.
unfoldable pub fail_send : Conn → Conn
fail_send c = record c { state = (compare_and_swap_not c.state conn_closed conn_reconnecting).0 }

abbrev pub happens : Conn → Event → Conn
happens c reconnect_begins = begin_reconnect c.phase c
happens c old_closed = close_old c.phase c
happens c dial_succeeds = dial_wire c.phase c
happens c gives_up = give_up c.phase c
happens c checked = check_closed c.phase c
happens c assigned = assign_wire c.phase c
happens c swapped = finish_reconnect c.phase c
happens c close_begins = begin_close c
happens c close_ends = end_close c.phase c
happens c send_fails = fail_send c
happens c (session_ends n) = record c { is_open = shut n c.is_open }

unfoldable pub run : Conn → List Event → Conn
run c [] = c
run c (e ∷ es) = run (happens c e) es
