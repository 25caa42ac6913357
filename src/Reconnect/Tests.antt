-- ===== src/Reconnect/Tests.antt =====
-- Small runs of a reconnecting transport, and the theorems at them.
use iscp_go.Prelude.{
  ℕ, ◌+◌, ◌<◌, ◌≡◌, ◌↔◌, refl, List, [], ◌∷◌, ◌++◌, Option, none, some, Bool, true, false, arith,
  ◌==◌, nat_eq, if◌then◌else◌,
}
use iscp_go.Multi.Transports.{connected, reconnecting}
use iscp_go.Reconnect.Control.{
  ping, get_sequence, marshal_binary, control, try_parse_control_message,
}
use iscp_go.Reconnect.Control.Laws.{parse_iff-marshal}
use iscp_go.Reconnect.Machine.{
  unlimited, at_most, Reconnecting, dial, Attempted, connected_to, attempts_failed, attempts,
  reconnected, reconnect, store_initial, done_process, close_with_status,
}
use iscp_go.Reconnect.Machine.Attempts.{FailedBetween, EndsAt, attempts-EndsAt}
use iscp_go.Reconnect.Machine.Races.{renewed, outcome, reconnect_twice, close_between}
use iscp_go.Reconnect.Machine.Safety.{
  Reach, start_here, then_step, storing, announcing, IsHonest, Keeps, Reach-IsHonest, State,
  to_announce, finished, dialled,
}

abbrev bytes : List ℕ
bytes = 255 ∷ 0 ∷ 0 ∷ 0 ∷ 1 ∷ 2 ∷ 9 ∷ []

parse_iff-marshal_example : (try_parse_control_message bytes ≡ control (ping 258)) ↔ (
    (extra : List ℕ) × (bytes ≡ marshal_binary (ping 258) ++ extra)
    × (get_sequence (ping 258) < 4294967296))
parse_iff-marshal_example = parse_iff-marshal bytes (ping 258) (
  omega arith,
  (omega arith, (omega arith, (omega arith, (omega arith, (omega arith, (omega arith, tt)))))),
)

abbrev never : ℕ → Bool
never k = false

abbrev third : ℕ → Option ℕ
third k = if k == 2 then some 7 else none

attempts-EndsAt_example :
    (a : Attempted) × (attempts (at_most 5) never third 9 0 ≡ some a)
    × ((k : ℕ) × FailedBetween 5 never third 0 k × EndsAt 5 never third k a)
attempts-EndsAt_example = attempts-EndsAt 5 never third 9 (omega arith)

abbrev up : Reconnecting
up = record {
  transport = some 4;
  status = connected;
  closed = false;
  max_attempts = unlimited;
  ping_seq = 8;
  pending_pongs = (8, 100) ∷ [];
  app_rtt = 20;
}

reconnect_twice_example :
    reconnect (reconnect up 4 (connected_to 5)).0 4 attempts_failed
    ≡ outcome (renewed up 5 reconnecting) reconnected
reconnect_twice_example = reconnect_twice up 4 5 attempts_failed refl refl (omega arith)

abbrev always : ℕ → Bool
always k = true

close_between_example :
    done_process
      (close_with_status (store_initial always up (connected_to 6)).0)
      (store_initial always up (connected_to 6)).1
    ≡ record up { transport = some 6; status = connected; closed = true }
close_between_example = close_between always up 6 refl refl

abbrev fresh : Reconnecting
fresh = dial (at_most 3)

abbrev stored : State
stored = record {
  machine = (store_initial always fresh (connected_to 6)).0;
  initial = to_announce (store_initial always fresh (connected_to 6)).1;
}

abbrev announced : State
announced = record {
  machine =
      done_process (store_initial always fresh (connected_to 6)).0
        (store_initial always fresh (connected_to 6)).1;
  initial = finished;
}

path : Reach (dialled (at_most 3)) stored
path = then_step start_here (storing always fresh (connected_to 6))

Reach-IsHonest_example :
    IsHonest stored.machine × IsHonest announced.machine × Keeps stored.machine announced.machine
Reach-IsHonest_example = Reach-IsHonest (at_most 3) path (
    announcing (store_initial always fresh (connected_to 6)).0
      (store_initial always fresh (connected_to 6)).1)

abbrev sum : ℕ → ℕ → ℕ
sum a b = a + b
