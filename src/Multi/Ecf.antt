-- ===== src/Multi/Ecf.antt =====
-- transport/multi/ecf_selector.go: Earliest Completion First. All its arithmetic is on uint64. The log
-- output is left out. `metricsBuffer` lives for one call, so it is a value of that call.
pub mod Pick
pub mod Choice
pub mod Waiting
use iscp_go.Prelude.{
  ℕ, ◌+◌, ◌*◌, max, List, [], ◌∷◌, ◌++◌, Option, none, some, Bool, true, false, ◌&&◌, not, ltb, leb,
  ◌==◌, nat_eq, string_eq, if◌then◌else◌, Map, lookup, insert,
}
use iscp_go.Multi.Transports.{TransportId, no_id, TransportMap, select_available}
use iscp_go.Multi.Info.{
  TransportInfo, smoothed_rtt, min_rtt, mean_deviation, congestion_window, bytes_in_flight,
  rtt_to_microseconds, refreshed,
}
use iscp_go.Multi.Stats.{u64, max_u64, counter}

abbrev pub ecf_beta : ℕ
ecf_beta = 4

-- ecfTransportMetrics
pub record EcfMetrics : Type 0 where
  pub rtt : ℕ
  pub rttvar : ℕ
  pub cwnd : ℕ
  pub in_flight : ℕ
  pub allowed : Bool

-- ecfTransportMetricEntry
pub record MetricEntry : Type 0 where
  pub entry_id : TransportId
  pub metrics : EcfMetrics
  pub entry_min_rtt : ℕ

pub record EcfSelector : Type 0 where
  pub transports : Map TransportId TransportInfo
  pub waiting : Bool
  pub waiting_for_transport : TransportId
  pub queue_size : ℕ
  pub last_selected_transport : TransportId
  pub total_selections : ℕ
  pub first_inequality_true_count : ℕ
  pub second_inequality_true_count : ℕ
  pub actual_wait_count : ℕ
  pub switch_count : ℕ
  pub selection_counts : Map TransportId ℕ

-- `UpdateTransport`, `SetQueueSize`
unfoldable pub update_transport : EcfSelector → TransportId → TransportInfo → EcfSelector
update_transport s id info = record s {
  transports = insert id (refreshed (lookup id s.transports) info) s.transports;
}

unfoldable pub set_queue_size : EcfSelector → ℕ → EcfSelector
set_queue_size s queue_size = record s { queue_size = queue_size }

unfoldable pub record_selection : EcfSelector → TransportId → EcfSelector
record_selection s id = record s {
  selection_counts =
      insert id (u64 (counter (lookup id s.selection_counts) + 1)) s.selection_counts;
  total_selections = u64 (s.total_selections + 1);
}

unfoldable pub metrics_of : TransportInfo → EcfMetrics
metrics_of info = record {
  rtt = rtt_to_microseconds (smoothed_rtt info);
  rttvar = rtt_to_microseconds (mean_deviation info);
  cwnd = congestion_window info;
  in_flight = bytes_in_flight info;
  allowed = info.sending_allowed;
}

-- The variables of the loop over the transports.
pub record Scan : Type 0 where
  pub fastest : TransportId
  pub available : TransportId
  pub min_base_rtt : ℕ
  pub available_min_rtt : ℕ
  pub buffer : List MetricEntry

abbrev pub start : Scan
start = record {
  fastest = no_id;
  available = no_id;
  min_base_rtt = max_u64;
  available_min_rtt = max_u64;
  buffer = [];
}

unfoldable pub visit : Scan → TransportId → TransportInfo → Scan
visit v id info =
    let m = metrics_of info in
    let base_rtt = rtt_to_microseconds (min_rtt info) in
    let faster = ltb base_rtt v.min_base_rtt in
    let faster_allowed = m.allowed && ltb m.rtt v.available_min_rtt in
    record {
      fastest = (if faster then id else v.fastest);
      min_base_rtt = (if faster then base_rtt else v.min_base_rtt);
      available = (if faster_allowed then id else v.available);
      available_min_rtt = (if faster_allowed then m.rtt else v.available_min_rtt);
      buffer = v.buffer ++ (record { entry_id = id; metrics = m; entry_min_rtt = base_rtt } ∷ []);
    }

unfoldable pub scan : Scan → Map TransportId TransportInfo → Scan
scan v [] = v
scan v ((id, info) ∷ rest) = scan (visit v id info) rest

-- getMetricsFromBuffer
unfoldable pub get_metrics : List MetricEntry → TransportId → EcfMetrics
get_metrics [] id = record { rtt = 0; rttvar = 0; cwnd = 0; in_flight = 0; allowed = false }
get_metrics (e ∷ rest) id = if e.entry_id == id then e.metrics else get_metrics rest id

-- The first inequality, for the fastest transport `f` and the one at hand, `a`.
unfoldable pub first_inequality : Bool → ℕ → EcfMetrics → EcfMetrics → Bool
first_inequality waiting queue_size f a =
    let delta = max f.rttvar a.rttvar in
    let x_f = max queue_size f.cwnd in
    let lhs = u64 (f.rtt * u64 (x_f + f.cwnd)) in
    let rhs = u64 (f.cwnd * u64 (a.rtt + delta)) in
    ltb (u64 (ecf_beta * lhs)) (u64 (u64 (ecf_beta * rhs) + (if waiting then rhs else 0)))

-- The second inequality.
unfoldable pub second_inequality : ℕ → EcfMetrics → EcfMetrics → Bool
second_inequality queue_size f a =
    let delta = max f.rttvar a.rttvar in
    let x_s = max queue_size a.cwnd in
    leb (u64 (a.cwnd * u64 (u64 (2 * f.rtt) + delta))) (u64 (a.rtt * x_s))

-- What follows the choice of a transport, on each path that counts a switch.
unfoldable pub settle : EcfSelector → TransportId → EcfSelector
unfolding record_selection
settle s selected = record (record_selection s selected) {
  waiting = false;
  switch_count =
      (if not (s.last_selected_transport == no_id) && not (s.last_selected_transport == selected)
        then u64 (s.switch_count + 1)
        else s.switch_count);
  last_selected_transport = selected;
}

-- The counts of the inequalities are kept for the first evaluation of a `Get` only.
abbrev count_if : Bool → ℕ → ℕ
count_if b n = if b then u64 (n + 1) else n

unfoldable pub wait_for : EcfSelector → Bool → TransportId → EcfSelector
wait_for s record_stats fastest = record s {
  waiting = true;
  waiting_for_transport = fastest;
  first_inequality_true_count = count_if record_stats s.first_inequality_true_count;
  second_inequality_true_count = count_if record_stats s.second_inequality_true_count;
  actual_wait_count = count_if record_stats s.actual_wait_count;
}

-- From the comparison of the two transports on.
unfoldable pub evaluate : EcfSelector → Bool → Scan → EcfSelector × TransportId
evaluate s record_stats v =
    let f = get_metrics v.buffer v.fastest in
    let a = get_metrics v.buffer v.available in
    if not (first_inequality s.waiting s.queue_size f a)
    then (settle s v.available, v.available)
    else if second_inequality s.queue_size f a
    then (wait_for s record_stats v.fastest, no_id)
    else (
      settle
          (record s {
            first_inequality_true_count = count_if record_stats s.first_inequality_true_count;
          })
          v.available,
      v.available,
    )

unfoldable pub select_scanned : EcfSelector → Bool → Scan → EcfSelector × TransportId
select_scanned s record_stats v =
    if v.available == no_id
    then (s, no_id)
    else if v.fastest == v.available
    then (settle s v.fastest, v.fastest)
    else evaluate s record_stats v

unfoldable pub select_from :
    EcfSelector → Bool → Map TransportId TransportInfo → EcfSelector × TransportId
select_from s record_stats [] = (s, no_id)
select_from s record_stats ((id, info) ∷ []) =
    (record (record_selection s id) { waiting = false; last_selected_transport = id }, id)
select_from s record_stats (e ∷ e' ∷ rest) =
    select_scanned s record_stats (scan start (e ∷ e' ∷ rest))

-- `selectTransportECF`
unfoldable pub select_transport_ecf : EcfSelector → Bool → EcfSelector × TransportId
unfolding select_from
select_transport_ecf s record_stats = select_from s record_stats s.transports

-- The loop of `Get`. The list holds what others do to the selector in each sleep; `none` says that the
-- call still waits when the list ends.
unfoldable pub get_loop :
    List (EcfSelector → EcfSelector) → EcfSelector → Bool → EcfSelector × Option TransportId
get_loop [] s first_evaluation =
    let (s', selected) = select_transport_ecf s first_evaluation in
    (s', (if (selected == no_id) && s'.waiting then none else some selected))
get_loop (during ∷ sleeps) s first_evaluation =
    let (s', selected) = select_transport_ecf s first_evaluation in
    let later = get_loop sleeps (during s') false in
    if (selected == no_id) && s'.waiting then later else (s', some selected)

abbrev through : Option TransportMap → TransportId → TransportId
through none id = id
through (some ts) id = if id == no_id then no_id else select_available id ts

-- `Get`, with the states of the transports where a multi-transport is set: the early return of the empty
-- identifier does not look at them.
unfoldable pub get :
    List (EcfSelector → EcfSelector)
    → EcfSelector
    → Option TransportMap
    → EcfSelector × Option TransportId
get sleeps s mt =
    let (s', r) = get_loop sleeps s true in
    (s', elim r [ none ↦ none | some id ↦ some (through mt id) ])
