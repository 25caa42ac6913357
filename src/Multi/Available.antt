-- ===== src/Multi/Available.antt =====
-- What `SelectAvailableTransport` and `updateOverallStatus` promise.
use native.Mathlib.Nat.{zero-add}
use text.Mathlib.TextEquality.{eq_iff}
use iscp_go.Prelude.{
  ℕ, suc, ◌+◌, ◌<◌, ◌≡◌, refl, ◌∙◌, inl, inr, [], ◌∷◌, Option, none, some, Bool, true, false, ◌&&◌,
  arith, ltb, ◌==◌, nat_eq, string_eq, if◌then◌else◌, length, lookup, Bool-cases, DistinctKeys,
  lookup_cons_of_rest, lookup_rest_of_ne, beq_refl, not,
}
use iscp_go.Multi.Transports.{
  TransportId, no_id, Status, connected, reconnecting, disconnected, connecting, TransportMap,
  is_connected, is_pending, fallback, holds_connected, select_available, Overall, all_connected,
  partially_connected, all_reconnecting, all_disconnected, Counts, count_all, new_status,
  update_overall_status, is_disconnected,
}

-- The first entry that passes a test.
abbrev pub find_id : (TransportId → Status → Bool) → TransportMap → Option TransportId
find_id test [] = none
find_id test ((id, s) ∷ rest) = if test id s then some id else find_id test rest

abbrev pub or_else : Option TransportId → TransportId → TransportId
or_else none d = d
or_else (some id) d = id

abbrev pub connected_entry : TransportId → Status → Bool
connected_entry id s = is_connected s

-- An entry in a state of connecting, under a name.
abbrev pub pending_entry : TransportId → Status → Bool
pending_entry id s = is_pending s && not (id == no_id)

fallback_lem :
    (so_far : TransportId) (ts : TransportMap)
    → fallback so_far ts
      ≡ or_else
          (find_id connected_entry ts)
          (if so_far == no_id then or_else (find_id pending_entry ts) no_id else so_far)
unfolding fallback
fallback_lem so_far [] = ground (arith, eq_iff so_far no_id)
fallback_lem so_far ((id, connected) ∷ rest) = refl
fallback_lem so_far ((id, disconnected) ∷ rest) = fallback_lem so_far rest
fallback_lem so_far ((id, reconnecting) ∷ rest) =
    ground
      (arith, eq_iff so_far no_id, eq_iff id no_id, fallback_lem so_far rest, fallback_lem id rest)
fallback_lem so_far ((id, connecting) ∷ rest) =
    ground
      (arith, eq_iff so_far no_id, eq_iff id no_id, fallback_lem so_far rest, fallback_lem id rest)

-- `SelectAvailableTransport` returns the selected transport if it is connected; if not, the first
-- connected one in the order of the iteration; if there is none, the first one with a name that is
-- reconnecting or connecting; and the empty identifier if there is none of these either.
pub select_available_lem :
    (selected_id : TransportId) (ts : TransportMap)
    → select_available selected_id ts ≡ (
        if holds_connected (lookup selected_id ts)
        then selected_id
        else or_else (find_id connected_entry ts) (or_else (find_id pending_entry ts) no_id))
unfolding select_available
select_available_lem selected_id ts = rw (fallback_lem no_id ts)

connected_of_find :
    (ts : TransportMap) (d : TransportId)
    → DistinctKeys ts
    → (id : TransportId) → lookup id ts ≡ some connected
    → lookup (or_else (find_id connected_entry ts) d) ts ≡ some connected
unfolding lookup
connected_of_find [] d distinct id h = cc
connected_of_find ((j, connected) ∷ rest) d distinct id h = rw (beq_refl j)
connected_of_find ((j, disconnected) ∷ rest) d distinct id h =
    lookup_cons_of_rest j _ disconnected rest distinct (
      connected_of_find rest d distinct.1 id (lookup_rest_of_ne j id disconnected rest h (λ q. cc)))
connected_of_find ((j, reconnecting) ∷ rest) d distinct id h =
    lookup_cons_of_rest j _ reconnecting rest distinct (
      connected_of_find rest d distinct.1 id (lookup_rest_of_ne j id reconnecting rest h (λ q. cc)))
connected_of_find ((j, connecting) ∷ rest) d distinct id h =
    lookup_cons_of_rest j _ connecting rest distinct
      (connected_of_find rest d distinct.1 id (lookup_rest_of_ne j id connecting rest h (λ q. cc)))

-- Where the map holds a connected transport, `SelectAvailableTransport` returns a connected one.
pub select_available_connected :
    (selected_id : TransportId) (ts : TransportMap)
    → DistinctKeys ts
    → (id : TransportId) → lookup id ts ≡ some connected
    → lookup (select_available selected_id ts) ts ≡ some connected
select_available_connected selected_id ts distinct id h =
    rw (select_available_lem selected_id ts)
      (elim (Bool-cases (holds_connected (lookup selected_id ts))) [
        | inl q ↦ rw q (held (lookup selected_id ts) q)
        | inr q ↦ rw q (connected_of_find ts _ distinct id h)
      ])
  where
    held : (o : Option Status) → holds_connected o ≡ true → o ≡ some connected
    held o q = ground arith

abbrev pub count_if : (Status → Bool) → TransportMap → ℕ
count_if test [] = 0
count_if test ((id, s) ∷ rest) = let n = count_if test rest in if test s then suc n else n

abbrev is_down : Status → Bool
is_down disconnected = true
is_down _ = false

count_all_lem :
    (c : Counts) (ts : TransportMap)
    → ((count_all c ts).connected_count ≡ c.connected_count + count_if is_connected ts)
      × ((count_all c ts).reconnecting_count ≡ c.reconnecting_count + count_if is_pending ts)
unfolding count_all
count_all_lem c [] = omega arith
count_all_lem c ((id, connected) ∷ rest) =
    omega (arith, count_all_lem (record c { connected_count = c.connected_count + 1 }) rest)
count_all_lem c ((id, reconnecting) ∷ rest) =
    omega (arith, count_all_lem (record c { reconnecting_count = c.reconnecting_count + 1 }) rest)
count_all_lem c ((id, connecting) ∷ rest) =
    omega (arith, count_all_lem (record c { reconnecting_count = c.reconnecting_count + 1 }) rest)
count_all_lem c ((id, disconnected) ∷ rest) =
    omega (arith, count_all_lem (record c { disconnected_count = c.disconnected_count + 1 }) rest)

-- A status, and whether the transport is cancelled with it.
abbrev verdict : Overall → Overall × Bool
verdict s = (s, is_disconnected s)

-- The overall status by the number of transports, of those connected, and of those about to be.
abbrev pub status_of : ℕ → ℕ → ℕ → Overall × Bool
status_of n up pending =
    if ltb 0 n && (up == n)
    then (all_connected, false)
    else if ltb 0 up
    then (partially_connected, false)
    else if ltb 0 pending
    then (all_reconnecting, false)
    else (all_disconnected, true)

new_status_lem :
    (c : Counts) (n up pending : ℕ)
    → 0 < n
    → c.connected_count ≡ up
    → c.reconnecting_count ≡ pending
    → verdict (new_status c n) ≡ status_of n up pending
unfolding new_status
new_status_lem c n up pending h e f = ground arith

-- The overall status of a map is decided by its transports: all connected, if it has one and each is;
-- else partially connected, if one is; else all reconnecting, if one is reconnecting or connecting; else
-- disconnected, and the transport is cancelled in this last case and in no other.
pub update_overall_status_lem :
    (ts : TransportMap)
    → update_overall_status ts
      ≡ status_of (length ts) (count_if is_connected ts) (count_if is_pending ts)
unfolding update_overall_status
update_overall_status_lem [] = refl
update_overall_status_lem ((id, s) ∷ rest) =
    let counted =
      count_all_lem (record { connected_count = 0; reconnecting_count = 0; disconnected_count = 0 })
        ((id, s) ∷ rest) in
    new_status_lem
      (count_all (record { connected_count = 0; reconnecting_count = 0; disconnected_count = 0 })
        ((id, s) ∷ rest))
      (suc (length rest)) (count_if is_connected ((id, s) ∷ rest))
      (count_if is_pending ((id, s) ∷ rest)) (omega arith) (counted.0 ∙ zero-add _)
      (counted.1 ∙ zero-add _)
