-- ===== src/Upstream/Tests.antt =====
-- A short run of an upstream, and the theorems at it.
use iscp_go.Prelude.{
  range_from, length, ℕ, ◌+◌, ◌<◌, ◌≡◌, refl, List, [], ◌∷◌, ◌++◌, none, true, false, arith, ◌==◌,
  nat_eq, if◌then◌else◌, Map, lookup,
}
use iscp_go.Upstream.Data.{
  DataId, data_id_eq, DataPoint, DataPointGroup, to_upstream_data_point_groups,
}
use iscp_go.Upstream.{Upstream, process_result, process_data_id_aliases}
use iscp_go.Upstream.Run.{
  Step, write_step, flush_step, result_step, aliases_step, run, in_chunks, written,
}
use iscp_go.Upstream.Delivery.{buffered, run-delivers}
use iscp_go.Upstream.Counters.{IsSound, buffer_points, buffer_size, written_points}
use iscp_go.Upstream.Messages.{AllFromServer, Matches, messages}
use iscp_go.Upstream.Numbers.{Advances, message_numbers, run-Advances}
use iscp_go.Upstream.Aliases.{resolved, all_present, Agrees, groups_resolve}
use iscp_go.Upstream.Sent.{sent_of, process_result_lem}

abbrev speed : DataId
speed = record { name = "speed"; type_name = "float" }

abbrev place : DataId
place = record { name = "place"; type_name = "gnss" }

abbrev point : ℕ → DataPoint
point t = record { elapsed_time = t; payload = 1 ∷ 2 ∷ [] }

abbrev group : DataId → ℕ → DataPointGroup
group id t = record { data_id = id; data_points = point t ∷ [] }

abbrev fresh : Upstream
fresh = record {
  rev_data_id_aliases = [];
  data_id_aliases = [];
  total_data_points = 0;
  send_buffer = [];
  send_buffer_payload_size = 0;
  send_buffer_data_points_count = 0;
  id_alias = 1;
  sent_buf = [];
  keep_payload = true;
  sequence = record { current = 0 };
  waiting_results = [];
}

abbrev server : Map ℕ DataId
server = (7, speed) ∷ (8, place) ∷ []

abbrev steps : List Step
steps =
    write_step (group speed 1)
    ∷ write_step (group place 2)
    ∷ write_step (group speed 3)
    ∷ flush_step
    ∷ result_step 1
    ∷ aliases_step server
    ∷ write_step (group speed 4)
    ∷ flush_step
    ∷ write_step (group place 5)
    ∷ []

fresh-IsSound : IsSound fresh
unfolding buffer_points buffer_size
fresh-IsSound = record {
  points = refl;
  size = refl;
  total_fits = omega arith;
  number_fits = omega arith;
}

few : buffer_points [] + written_points steps < 18446744073709551616
unfolding buffer_points written_points
few = omega arith

fresh-Agrees : Agrees server []
unfolding lookup
fresh-Agrees id a q = cc

from_server : AllFromServer server steps
unfolding lookup
from_server = (tt, (tt, (tt, (tt, (tt, ((refl, (refl, tt)), (tt, (tt, (tt, tt)))))))))

run-delivers_example :
    Matches server fresh.id_alias (messages fresh steps) (run fresh steps).1
    × (in_chunks speed (run fresh steps).1 ++ buffered speed (run fresh steps).0
        ≡ buffered speed fresh ++ written speed steps)
run-delivers_example = run-delivers server speed fresh steps tt fresh-Agrees from_server

run-Advances_example :
    IsSound (run fresh steps).0
    × Advances fresh (run fresh steps).0 (run fresh steps).1 (written_points steps)
    × (message_numbers (messages fresh steps) ≡ range_from 1 (length (run fresh steps).1))
run-Advances_example = run-Advances fresh steps fresh-IsSound few

groups_resolve_example :
    resolved server
      (to_upstream_data_point_groups
        (group speed 1 ∷ group place 2 ∷ [])
        (process_data_id_aliases fresh ((7, speed) ∷ [])).rev_data_id_aliases).res
    ≡ all_present (group speed 1 ∷ group place 2 ∷ [])
unfolding lookup
groups_resolve_example =
    groups_resolve server fresh ((7, speed) ∷ []) (group speed 1 ∷ group place 2 ∷ []) fresh-Agrees
      (refl, tt)

abbrev pending : Upstream
pending = record fresh { sent_buf = (4, []) ∷ (5, []) ∷ []; waiting_results = (5, true) ∷ [] }

abbrev four : ℕ
four = 4

process_result_example :
    (sent_of 5 (process_result pending four).0 ≡ (if four == 5 then none else sent_of 5 pending))
    × ((process_result (process_result pending four).0 four).1 ≡ false)
process_result_example = process_result_lem pending four 5
