-- ===== src/Reconnect/Machine.antt =====
-- transport/reconnect/transport.go: connecting, connecting again and closing. The transport inside is known by
-- an identity, as the code compares pointers; what the dialer answers at each attempt, and whether the
-- context is cancelled before it, are arguments. Log output, the pauses and the metrics are left out.
pub mod Attempts
pub mod Races
pub mod Safety
use iscp_go.Prelude.{
  ℕ, zero, suc, ◌+◌, ◌%◌, [], Option, none, some, Bool, true, false, not, leb, ◌==◌, nat_eq,
  if◌then◌else◌, Map, lookup, insert, erase,
}
use iscp_go.Multi.Transports.{Status, connected, reconnecting, disconnected, connecting}

-- `maxReconnectAttempts`; a negative number is no limit
pub data MaxAttempts : Type 0 where
  unlimited : MaxAttempts
  at_most : ℕ → MaxAttempts

-- The default of `Dial`: 0 is 30.
abbrev pub configured : MaxAttempts → MaxAttempts
configured unlimited = unlimited
configured (at_most n) = if n == 0 then at_most 30 else at_most n

abbrev pub reached : MaxAttempts → ℕ → Bool
reached unlimited i = false
reached (at_most n) i = leb n i

-- Transport
pub record Reconnecting : Type 0 where
  pub transport : Option ℕ
  pub status : Status
  pub closed : Bool
  pub max_attempts : MaxAttempts
  pub ping_seq : ℕ
  pub pending_pongs : Map ℕ ℕ
  pub app_rtt : ℕ

-- What `Dial` makes.
unfoldable pub dial : MaxAttempts → Reconnecting
dial max = record {
  transport = none;
  status = connecting;
  closed = false;
  max_attempts = configured max;
  ping_seq = 0;
  pending_pongs = [];
  app_rtt = 0;
}

-- How a loop of attempts ends.
pub data Attempted : Type 0 where
  connected_to : ℕ → Attempted
  attempts_failed closed_meanwhile : Attempted

module _ (max : MaxAttempts) (closed_before : ℕ → Bool) (connect : ℕ → Option ℕ) where
  abbrev after_connect : Option ℕ → Option Attempted → Option Attempted
  after_connect none later = later
  after_connect (some t) later = some (connected_to t)

  -- The loop of `reconnect` and that of `initialConnect`, with fuel.
  unfoldable pub attempts : ℕ → ℕ → Option Attempted
  attempts zero i = none
  attempts (suc fuel) i =
      let later = attempts fuel (suc i) in
      if reached max i
      then some attempts_failed
      else if closed_before i
      then some closed_meanwhile
      else after_connect (connect i) later

pub data ReconnectResult : Type 0 where
  reconnected connection_closed reconnect_failed : ReconnectResult

abbrev pub settle : Reconnecting → Attempted → Reconnecting × ReconnectResult
settle r (connected_to t) = (record r { transport = some t; status = connected }, reconnected)
settle r attempts_failed = (r, reconnect_failed)
settle r closed_meanwhile = (r, connection_closed)

-- Two references are the same pointer.
abbrev same_transport : Option ℕ → ℕ → Bool
same_transport none old = false
same_transport (some t) old = t == old

-- `reconnect` by a loop that used the transport `old`, with what its attempts come to.
unfoldable pub reconnect : Reconnecting → ℕ → Attempted → Reconnecting × ReconnectResult
reconnect r old attempted =
    let r1 : Reconnecting = record r { status = reconnecting } in
    let r2 : Reconnecting = record r1 { ping_seq = 0; pending_pongs = [] } in
    if r.closed
    then (r, connection_closed)
    else if same_transport r.transport old
    then settle r2 attempted
    else (r1, reconnected)

-- `initialConnect` in the two steps that others can come between: it stores the transport, or finds the
-- context cancelled, and it announces the end by `doneProcess`.
-- `is_closer` is the assertion to `transport.Closer`.
unfoldable pub store_initial : (ℕ → Bool) → Reconnecting → Attempted → Reconnecting × Attempted
store_initial is_closer r (connected_to t) =
    if not (is_closer t)
    then (r, attempts_failed)
    else if r.closed
    then (r, closed_meanwhile)
    else (record r { transport = some t }, connected_to t)
store_initial is_closer r attempts_failed = (r, attempts_failed)
store_initial is_closer r closed_meanwhile = (r, closed_meanwhile)

unfoldable pub done_process : Reconnecting → Attempted → Reconnecting
done_process r (connected_to t) = record r { status = connected }
done_process r attempts_failed = record r { status = disconnected; closed = true }
done_process r closed_meanwhile = record r { status = disconnected; closed = true }

-- `CloseWithStatus`, likewise: it cancels the context, and under the lock it sets the status.
unfoldable pub cancel : Reconnecting → Reconnecting
cancel r = record r { closed = true }

unfoldable pub finish_close : Reconnecting → Reconnecting
finish_close r = record r { status = disconnected }

unfoldable pub close_with_status : Reconnecting → Reconnecting
unfolding cancel finish_close
close_with_status r = finish_close (cancel r)
