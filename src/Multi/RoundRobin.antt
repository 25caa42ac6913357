-- ===== src/Multi/RoundRobin.antt =====
-- transport/multi/round_robin_selector.go. An index out of range would be a panic: `none`.
use native.Mathlib.Nat.{add-zero, mod-eq_of_lt, mod-add-mod}
use mathlib.Core.Option
use iscp_go.Prelude.{
  ℕ, zero, suc, ◌+◌, ◌%◌, ◌<◌, ◌≡◌, refl, sym, ap, ◌∙◌, List, [], ◌∷◌, Option, none, some, arith,
  ◌==◌, nat_eq, string_eq, if◌then◌else◌, length, get_elem?,
}
use iscp_go.Multi.Transports.{TransportId, no_id, TransportMap, select_available}

pub record RoundRobinSelector : Type 0 where
  pub transport_ids : List TransportId
  pub current : ℕ

unfoldable pub new_round_robin_selector : List TransportId → RoundRobinSelector
new_round_robin_selector ids = record { transport_ids = ids; current = 0 }

at_current : RoundRobinSelector → Option TransportId → Option (RoundRobinSelector × TransportId)
at_current s none = none
at_current s (some id) = some (record s { current = (s.current + 1) % length s.transport_ids }, id)

unfoldable pub select_next : RoundRobinSelector → Option (RoundRobinSelector × TransportId)
unfolding at_current
select_next s =
    if length s.transport_ids == 0
    then some (s, no_id)
    else at_current s (get_elem? s.transport_ids s.current)

-- `Get`, with the states of the transports where a multi-transport is set.
after_select :
    Option TransportMap
    → Option (RoundRobinSelector × TransportId)
    → Option (RoundRobinSelector × TransportId)
after_select mt none = none
after_select none (some (s, id)) = some (s, id)
after_select (some transports) (some (s, id)) = some (s, select_available id transports)

unfoldable pub get :
    RoundRobinSelector → Option TransportMap → Option (RoundRobinSelector × TransportId)
unfolding after_select
get s mt = after_select mt (select_next s)

-- The identifiers of consecutive calls without a multi-transport.
unfoldable pub gets : ℕ → RoundRobinSelector → Option (List TransportId)
gets zero s = some []
gets (suc n) s = elim (get s none) [
  | none ↦ none
  | some (s', id) ↦ Option.map (λ ids. id ∷ ids) (gets n s')
]

get_elem?_inside {ℓ} :
    {A : Type ℓ} (xs : List A) (i : ℕ) → i < length xs → (a : A) × (get_elem? xs i ≡ some a)
get_elem?_inside [] i h = elim h [ ]
get_elem?_inside (x ∷ xs) zero h = (x, refl)
get_elem?_inside (x ∷ xs) (suc i) h = get_elem?_inside xs i (omega arith)

select_next_lem :
    (s : RoundRobinSelector) (id : TransportId)
    → s.current < length s.transport_ids
    → get_elem? s.transport_ids s.current ≡ some id
    → select_next s ≡ some (record s { current = (s.current + 1) % length s.transport_ids }, id)
unfolding select_next
select_next_lem s id h e = ground arith

-- The identifier at a place, counted round the list.
abbrev pub nth : List TransportId → ℕ → Option TransportId
nth ids k = get_elem? ids (k % length ids)

get-none : (s : RoundRobinSelector) → get s none ≡ select_next s
unfolding get
get-none s = keeps (select_next s)
  where
    keeps : (r : Option (RoundRobinSelector × TransportId)) → after_select none r ≡ r
    keeps none = refl
    keeps (some r) = refl

gets_cons :
    (n : ℕ) (s s' : RoundRobinSelector) (id : TransportId) (rest : List TransportId)
    → get s none ≡ some (s', id)
    → gets n s' ≡ some rest
    → gets (suc n) s ≡ some (id ∷ rest)
unfolding gets
gets_cons n s s' id rest e f = rw (e, gets) (ap (Option.map (λ ids. id ∷ ids)) f)

here : (c n : ℕ) → c < n → (c + 0) % n ≡ c
here c n h = ap (λ (m : ℕ). m % n) (add-zero c) ∙ mod-eq_of_lt h

-- The place of the next call, counted on.
next_place : (c k n : ℕ) → ((c + 1) % n + k) % n ≡ (c + suc k) % n
next_place c k n = mod-add-mod (c + 1) n k ∙ ap (λ (m : ℕ). m % n) (omega arith)

-- A round is fair: of any calls in a row without a multi-transport, the k-th returns the identifier k
-- places on from the current one, counted round the list, and no call panics.
pub gets_lem :
    (n : ℕ) (s : RoundRobinSelector)
    → s.current < length s.transport_ids
    → (ids : List TransportId) × (gets n s ≡ some ids)
      × ((k : ℕ) → k < n → get_elem? ids k ≡ nth s.transport_ids (s.current + k))
unfolding gets
gets_lem zero s h = ([], refl, λ k l. elim l [ ])
gets_lem (suc n) s h =
    let (id, e) = get_elem?_inside s.transport_ids s.current h in
    let next : RoundRobinSelector = record s {
      current = (s.current + 1) % length s.transport_ids;
    } in
    let (ids, f, g) = gets_lem n next (grind arith) in
    (
      id ∷ ids,
      gets_cons n s next id ids (get-none s ∙ select_next_lem s id h e) f,
      elim [
        | zero ↦ λ l.
            sym e ∙ ap (get_elem? s.transport_ids) (sym (here s.current (length s.transport_ids) h))
        | suc k ↦ λ l.
            g k (omega arith)
            ∙ ap (get_elem? s.transport_ids) (next_place s.current k (length s.transport_ids))
      ],
    )
