-- ===== src/Multi/Stats.antt =====
-- The statistics of the selectors: `recordSelection` of minrtt_selector.go and
-- byte_balanced_selector.go, which are the same. Counters are uint64.
use iscp_go.Prelude.{
  ℕ, ◌+◌, ◌%◌, Option, none, some, ◌&&◌, not, [], ◌==◌, nat_eq, string_eq, if◌then◌else◌, Map,
  lookup, insert,
}
use iscp_go.Multi.Transports.{TransportId, no_id}

abbrev pub u64 : ℕ → ℕ
u64 n = n % 18446744073709551616

-- `^uint64(0)`
abbrev pub max_u64 : ℕ
max_u64 = 18446744073709551615

-- `m[k]` of a map of counters
abbrev pub counter : Option ℕ → ℕ
counter none = 0
counter (some n) = n

pub record Stats : Type 0 where
  pub last_selected : TransportId
  pub total_selections : ℕ
  pub switch_count : ℕ
  pub selection_counts : Map TransportId ℕ

unfoldable pub record_selection : Stats → TransportId → Stats
record_selection s selected_id = record s {
  total_selections = u64 (s.total_selections + 1);
  switch_count =
      (if not (s.last_selected == no_id) && not (s.last_selected == selected_id)
        then u64 (s.switch_count + 1)
        else s.switch_count);
  last_selected = selected_id;
  selection_counts =
      insert selected_id (u64 (counter (lookup selected_id s.selection_counts) + 1))
        s.selection_counts;
}

-- ResetStats
unfoldable pub reset_stats : Stats → Stats
reset_stats s = record {
  last_selected = no_id;
  total_selections = 0;
  switch_count = 0;
  selection_counts = [];
}
