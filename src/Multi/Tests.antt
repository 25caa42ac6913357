-- ===== src/Multi/Tests.antt =====
-- Two transports, and the theorems at such inputs.
use mathlib.Core.List.{Memᴰ}
use iscp_go.Prelude.{
  ◌≤◌, ℕ, ◌+◌, ◌<◌, ◌≡◌, ◌≢◌, refl, List, [], ◌∷◌, some, true, false, arith, if◌then◌else◌, lookup,
  Map, get_elem?, length, ◌⊎◌, DistinctKeys, string_eq, subst, sym,
}
use iscp_go.Multi.Transports.{
  TransportId, no_id, connected, reconnecting, TransportMap, select_available, holds_connected,
}
use iscp_go.Multi.Transports.{is_connected, is_pending, update_overall_status}
use iscp_go.Multi.Info.{min_rtt, smoothed_rtt}
use iscp_go.Multi.Available.{
  status_of, count_if, find_id, or_else, connected_entry, pending_entry, select_available_lem,
  update_overall_status_lem,
}
use iscp_go.Multi.Info.{Metrics, TransportInfo, new_transport_info}
use iscp_go.Multi.Stats.{Stats}
use iscp_go.Multi.RoundRobin.{RoundRobinSelector, gets, nth, gets_lem}
use iscp_go.Multi.MinRtt.{Candidate, choose}
use iscp_go.Multi.MinRtt.Choice.{AllProper, IsProper, NoneAllowed, Among, Least, choose_lem}
use iscp_go.Multi.ByteBalanced.Balance.{AllUp}
use iscp_go.Multi.ByteBalanced.Fairness.{AllFrom, given, unused, run-Balanced}
use iscp_go.Multi.Ecf.{EcfMetrics, EcfSelector, select_transport_ecf}
use iscp_go.Multi.Ecf.Choice.{Outcome, select_transport_ecf_lem}

abbrev states : TransportMap
states = ("wifi", reconnecting) ∷ ("lte", connected) ∷ []

select_available_example : select_available "wifi" states ≡ (
    if holds_connected (lookup "wifi" states)
    then "wifi"
    else or_else (find_id connected_entry states) (or_else (find_id pending_entry states) no_id))
select_available_example = select_available_lem "wifi" states

states_distinct : DistinctKeys states
unfolding lookup
states_distinct = (refl, (refl, tt))

update_overall_status_example :
    update_overall_status states
    ≡ status_of (length states) (count_if is_connected states) (count_if is_pending states)
update_overall_status_example = update_overall_status_lem states

abbrev reading : ℕ → Metrics
reading n = record { rtt = n; rtt_var = 1000; cwnd = 20000; in_flight = 5000 }

abbrev round : RoundRobinSelector
round = record { transport_ids = "lte" ∷ "wifi" ∷ []; current = 1 }

gets_example :
    (ids : List TransportId) × (gets 3 round ≡ some ids)
    × ((k : ℕ) → k < 3 → get_elem? ids k ≡ nth round.transport_ids (round.current + k))
gets_example = gets_lem 3 round (omega arith)

abbrev info : TransportId → ℕ → TransportInfo
info id n = record (new_transport_info id (some (reading n))) {
  sending_allowed = true;
  min_rtt_field = n;
}

abbrev infos : Map TransportId TransportInfo
infos = ("lte", info "lte" 9000) ∷ ("wifi", info "wifi" 5000) ∷ []

small : (id : TransportId) (n : ℕ) → id ≢ no_id → n < 100000000 → IsProper id (info id n)
unfolding min_rtt smoothed_rtt new_transport_info
small id n p h = ground arith

infos_proper : AllProper infos
infos_proper =
    (small "lte" 9000 (λ q. cc) (omega arith), (small "wifi" 5000 (λ q. cc) (omega arith), tt))

choose_example :
    (c : Candidate) × (c.id ≡ choose infos)
    × (Among (λ i. i.sending_allowed) c infos × Least (λ i. i.sending_allowed) c infos
        ⊎ NoneAllowed infos × Among (λ i. true) c infos × Least (λ i. true) c infos)
choose_example = choose_lem ("lte", info "lte" 9000) ("wifi", info "wifi" 5000) [] infos_proper

abbrev both_up : TransportMap
both_up = ("wifi", connected) ∷ ("lte", connected) ∷ []

abbrev no_stats : Stats
no_stats = record {
  last_selected = no_id;
  total_selections = 0;
  switch_count = 0;
  selection_counts = [];
}

abbrev IsUp : TransportMap → TransportId → Type 0
IsUp ts i = (i ≢ no_id) × (lookup i ts ≡ some connected)

both_AllUp : AllUp both_up ("wifi" ∷ "lte" ∷ [])
unfolding lookup
both_AllUp i (Memᴰ.head e) = subst (IsUp both_up) (sym e) (λ q. cc, refl)
both_AllUp i (Memᴰ.tail (Memᴰ.head e)) = subst (IsUp both_up) (sym e) (λ q. cc, refl)
both_AllUp i (Memᴰ.tail (Memᴰ.tail m)) = elim m [ ]

run-Balanced_example :
    AllFrom both_up
      (unused "wifi" ("lte" ∷ []) no_stats)
      ("wifi" ∷ "lte" ∷ [])
      (100 ∷ 300 ∷ 200 ∷ [])
    × (given both_up (unused "wifi" ("lte" ∷ []) no_stats) (100 ∷ 300 ∷ 200 ∷ []) "lte"
        ≤ given both_up (unused "wifi" ("lte" ∷ []) no_stats) (100 ∷ 300 ∷ 200 ∷ []) "wifi" + 300)
run-Balanced_example =
    run-Balanced both_up "wifi" ("lte" ∷ []) no_stats 300 (100 ∷ 300 ∷ 200 ∷ []) "lte" "wifi"
      both_AllUp (omega arith, (omega arith, (omega arith, tt))) (omega arith)
      (Memᴰ.tail (Memᴰ.head refl)) (Memᴰ.head refl)

abbrev ecf : EcfSelector
ecf = record {
  transports = infos;
  waiting = false;
  waiting_for_transport = no_id;
  queue_size = 0;
  last_selected_transport = no_id;
  total_selections = 0;
  first_inequality_true_count = 0;
  second_inequality_true_count = 0;
  actual_wait_count = 0;
  switch_count = 0;
  selection_counts = [];
}

select_transport_ecf_example : Outcome ecf infos (select_transport_ecf ecf true)
select_transport_ecf_example =
    select_transport_ecf_lem ecf true ("lte", info "lte" 9000) ("wifi", info "wifi" 5000) [] refl
      infos_proper

abbrev modest : ℕ → EcfMetrics
modest r = record { rtt = r; rttvar = 10; cwnd = 20000; in_flight = 0; allowed = true }
