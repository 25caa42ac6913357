-- ===== src/Multi/ByteBalanced.antt =====
-- transport/multi/byte_balanced_selector.go. Sizes are those of byte slices, so not negative.
pub mod Scan
pub mod Balance
pub mod Fairness
use iscp_go.Prelude.{
  ℕ, ◌+◌, List, [], ◌∷◌, Option, none, some, Bool, true, false, ◌&&◌, not, ltb, ◌==◌, nat_eq,
  string_eq, if◌then◌else◌, Map, lookup, insert,
}
use iscp_go.Multi.Transports.{TransportId, no_id, Status, TransportMap, select_available}
use iscp_go.Multi.Stats.{Stats, record_selection, reset_stats, counter, u64, max_u64}

pub record ByteBalancedSelector : Type 0 where
  pub transport_ids : List TransportId
  pub accumulated_bytes : Map TransportId ℕ
  pub stats : Stats

abbrev pub has_entry : Option Status → Bool
has_entry none = false
has_entry (some s) = true

-- `s.accumulatedBytes[id]`
abbrev pub bytes_of : Map TransportId ℕ → TransportId → ℕ
bytes_of acc id = counter (lookup id acc)

-- The loop of `selectMinBytes`.
unfoldable pub scan :
    TransportMap → Map TransportId ℕ → TransportId → ℕ → List TransportId → TransportId
scan transports acc selected_id min_bytes [] = selected_id
scan transports acc selected_id min_bytes (id ∷ rest) =
    let smaller = has_entry (lookup id transports) && ltb (bytes_of acc id) min_bytes in
    scan transports acc (if smaller then id else selected_id)
      (if smaller then bytes_of acc id else min_bytes) rest

abbrev pub recorded : ByteBalancedSelector → TransportId → ByteBalancedSelector × TransportId
recorded s id = (record s { stats = record_selection s.stats id }, id)

unfoldable pub select_from :
    ByteBalancedSelector
    → List TransportId
    → Option TransportMap
    → ByteBalancedSelector × TransportId
select_from s [] mt = (s, no_id)
select_from s (first ∷ ids) none = recorded s first
select_from s (first ∷ ids) (some []) = (s, no_id)
select_from s (first ∷ ids) (some (t ∷ ts)) =
    let id = scan (t ∷ ts) s.accumulated_bytes no_id max_u64 (first ∷ ids) in
    if id == no_id then (s, id) else recorded s id

unfoldable pub select_min_bytes :
    ByteBalancedSelector → Option TransportMap → ByteBalancedSelector × TransportId
unfolding select_from
select_min_bytes s mt = select_from s s.transport_ids mt

unfoldable pub add_accumulated_bytes : ByteBalancedSelector → TransportId → ℕ → ByteBalancedSelector
add_accumulated_bytes s id bytes = record s {
  accumulated_bytes = insert id (u64 (bytes_of s.accumulated_bytes id + bytes)) s.accumulated_bytes;
}

unfoldable pub charge : ℕ → ByteBalancedSelector × TransportId → ByteBalancedSelector × TransportId
unfolding add_accumulated_bytes
charge bs_size (s, id) =
    if not (id == no_id) && ltb 0 bs_size then (add_accumulated_bytes s id bs_size, id) else (s, id)

abbrev pub through :
    Option TransportMap → ByteBalancedSelector × TransportId → ByteBalancedSelector × TransportId
through none r = r
through (some ts) (s, id) = (s, select_available id ts)

-- `Get`: the bytes are charged to the transport that is used in the end.
unfoldable pub get :
    ByteBalancedSelector → Option TransportMap → ℕ → ByteBalancedSelector × TransportId
unfolding charge
get s mt bs_size = charge bs_size (through mt (select_min_bytes s mt))

-- ResetStats
unfoldable pub reset : ByteBalancedSelector → ByteBalancedSelector
reset s = record s { stats = reset_stats s.stats; accumulated_bytes = [] }
