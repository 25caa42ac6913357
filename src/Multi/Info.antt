-- ===== src/Multi/Info.antt =====
-- transport/multi/transport_info.go and ecf_constants.go. The readings of a metrics provider are what
-- it answers at the time; durations are non-negative counts of nanoseconds.
use mathlib.Core.List.{Memᴰ}
use iscp_go.Prelude.{
  sym, ◌∙◌, ℕ, ◌/◌, ◌<◌, ◌≤◌, ◌≡◌, List, [], ◌∷◌, Option, none, some, Bool, false, ◌&&◌, ◌||◌,
  arith, ltb, ◌==◌, nat_eq, string_eq, if◌then◌else◌, min,
}
use iscp_go.Multi.Transports.{TransportId}

-- metrics.MetricsProvider
pub record Metrics : Type 0 where
  pub rtt : ℕ
  pub rtt_var : ℕ
  pub cwnd : ℕ
  pub in_flight : ℕ

pub record TransportInfo : Type 0 where
  pub transport_id : TransportId
  pub metrics_provider : Option Metrics
  pub sending_allowed : Bool
  pub min_rtt_field : ℕ

unfoldable pub new_transport_info : TransportId → Option Metrics → TransportInfo
new_transport_info id provider = record {
  transport_id = id;
  metrics_provider = provider;
  sending_allowed = false;
  min_rtt_field = 0;
}

update_with : TransportInfo → Option Metrics → TransportInfo
update_with p none = record p { sending_allowed = false }
update_with p (some m) = record p {
  sending_allowed = ltb m.in_flight m.cwnd;
  min_rtt_field =
      (if ltb 0 m.rtt && ((p.min_rtt_field == 0) || ltb m.rtt p.min_rtt_field)
        then m.rtt
        else p.min_rtt_field);
}

-- Update
unfoldable pub update : TransportInfo → TransportInfo
unfolding update_with
update p = update_with p p.metrics_provider

abbrev reading : Option Metrics → (Metrics → ℕ) → ℕ → ℕ
reading none field default = default
reading (some m) field default = field m

unfoldable pub smoothed_rtt : TransportInfo → ℕ
smoothed_rtt p = reading p.metrics_provider (λ m. m.rtt) 100_000_000

unfoldable pub min_rtt : TransportInfo → ℕ
min_rtt p = if p.min_rtt_field == 0 then smoothed_rtt p else p.min_rtt_field

unfoldable pub mean_deviation : TransportInfo → ℕ
mean_deviation p = reading p.metrics_provider (λ m. m.rtt_var) 50_000_000

unfoldable pub congestion_window : TransportInfo → ℕ
congestion_window p = reading p.metrics_provider (λ m. m.cwnd) 14600

unfoldable pub bytes_in_flight : TransportInfo → ℕ
bytes_in_flight p = reading p.metrics_provider (λ m. m.in_flight) 0

-- rttToMicroseconds
abbrev pub rtt_to_microseconds : ℕ → ℕ
rtt_to_microseconds d = d / 1000

-- The part of `UpdateTransport` before the write to the map, which two selectors have.
abbrev keep_min_rtt : Option TransportInfo → TransportInfo → TransportInfo
keep_min_rtt none info = info
keep_min_rtt (some existing) info =
    if ltb 0 existing.min_rtt_field
    then record info { min_rtt_field = existing.min_rtt_field }
    else info

unfoldable pub refreshed : Option TransportInfo → TransportInfo → TransportInfo
refreshed existing info = update (keep_min_rtt existing info)

-- What `updateMetrics` leaves for one transport after the given readings, the newest last.
unfoldable pub observe : TransportId → Option TransportInfo → List Metrics → Option TransportInfo
observe id existing [] = existing
observe id existing (m ∷ ms) =
    observe id (some (refreshed existing (new_transport_info id (some m)))) ms

-- The lesser of two numbers, of which 0 stands for none.
least : ℕ → ℕ → ℕ
least a b = if a == 0 then b else if b == 0 then a else min a b

least_assoc : (a b c : ℕ) → least (least a b) c ≡ least a (least b c)
unfolding least
least_assoc a b c = ground arith

-- The least of the numbers that are not 0, or 0.
pub least_positive : List ℕ → ℕ
least_positive [] = 0
least_positive (x ∷ xs) = least x (least_positive xs)

abbrev pub rtts : List Metrics → List ℕ
rtts [] = []
rtts (m ∷ ms) = m.rtt ∷ rtts ms

abbrev pub tracked : Option TransportInfo → ℕ
tracked none = 0
tracked (some p) = p.min_rtt_field

tracked-refreshed :
    (id : TransportId) (existing : Option TransportInfo) (m : Metrics)
    → tracked (some (refreshed existing (new_transport_info id (some m))))
      ≡ least (tracked existing) m.rtt
unfolding refreshed update new_transport_info least
tracked-refreshed id none m = ground arith
tracked-refreshed id (some p) m = ground arith

least_zero : (a : ℕ) → least a 0 ≡ a
unfolding least
least_zero a = ground arith

observe_from :
    (id : TransportId) (existing : Option TransportInfo) (ms : List Metrics)
    → tracked (observe id existing ms) ≡ least (tracked existing) (least_positive (rtts ms))
unfolding observe least_positive
observe_from id existing [] = sym (least_zero (tracked existing))
observe_from id existing (m ∷ ms) =
    observe_from id (some (refreshed existing (new_transport_info id (some m)))) ms
    ∙ rw (tracked-refreshed id existing m)
        (least_assoc (tracked existing) m.rtt (least_positive (rtts ms)))

-- The minimum that a selector keeps for a transport over successive updates is the least round-trip
-- time, other than 0, among all readings, and 0 while there was none.
pub observe_min_rtt :
    (id : TransportId) (ms : List Metrics) → tracked (observe id none ms) ≡ least_positive (rtts ms)
unfolding least
observe_min_rtt id ms = observe_from id none ms

-- What `least_positive` is: positive and below every number of the list but 0.
pub least_positive_bound :
    (xs : List ℕ) (x : ℕ) → Memᴰ x xs → 0 < x → (0 < least_positive xs) × (least_positive xs ≤ x)
unfolding least_positive least
least_positive_bound [] x m h = elim m [ ]
least_positive_bound (y ∷ ys) x (Memᴰ.head e) h = ground arith
least_positive_bound (y ∷ ys) x (Memᴰ.tail m) h = ground (arith, least_positive_bound ys x m h)
