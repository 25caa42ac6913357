-- ===== src/Multi/Ecf/Choice.antt =====
-- What one evaluation of `ECFSelector` can do.
use mathlib.Core.List.{Memᴰ}
use text.Mathlib.TextEquality.{eq_iff}
use iscp_go.Prelude.{
  ℕ, ◌≡◌, ◌≢◌, refl, sym, ap, subst, ◌∙◌, ◌⊎◌, inl, inr, [], ◌∷◌, Bool, true, false, arith, ◌==◌,
  string_eq, Map, Bool-cases,
}
use iscp_go.Multi.Transports.{TransportId, no_id}
use iscp_go.Multi.Info.{TransportInfo}
use iscp_go.Multi.Stats.{max_u64}
use iscp_go.Multi.MinRtt.Choice.{base_of, smoothed_of, AllProper, NoneAllowed, proper_of_mem}
use iscp_go.Multi.Ecf.{
  EcfSelector, Scan, start, scan, settle, wait_for, evaluate, select_scanned, select_transport_ecf,
  select_from, first_inequality, second_inequality, get_metrics,
}
use iscp_go.Multi.Ecf.Pick.{NoneBelow, pick-Picked, fastest-scan, available-scan}

-- The entry of an identifier passes a test, and no entry that passes it has a lower key.
abbrev pub LeastEntry :
    (TransportInfo → Bool)
    → (TransportInfo → ℕ)
    → TransportId
    → Map TransportId TransportInfo
    → Type 0
LeastEntry test key id m =
    (info : TransportInfo) × Memᴰ (id, info) m
    × (test info ≡ true)
    × NoneBelow test key (key info) m

-- A transport is chosen, or the selector waits for one.
abbrev Settled : EcfSelector × TransportId → TransportId → Type 0
Settled (s', r) id = (r ≡ id) × (s'.waiting ≡ false) × (s'.last_selected_transport ≡ id)

abbrev Waits : EcfSelector → EcfSelector × TransportId → TransportId → Type 0
Waits s (s', r) id =
    (r ≡ no_id)
    × (s'.waiting ≡ true)
    × (s'.waiting_for_transport ≡ id)
    × (s'.total_selections ≡ s.total_selections)
    × (s'.last_selected_transport ≡ s.last_selected_transport)

evaluate_cases :
    (s : EcfSelector) (record_stats : Bool) (v : Scan)
    → Settled (evaluate s record_stats v) v.available
      ⊎ Waits s (evaluate s record_stats v) v.fastest
unfolding evaluate settle wait_for
evaluate_cases s record_stats v =
    cases
      (first_inequality s.waiting s.queue_size (get_metrics v.buffer v.fastest)
        (get_metrics v.buffer v.available))
      (second_inequality s.queue_size (get_metrics v.buffer v.fastest)
        (get_metrics v.buffer v.available))
      refl refl
  where
    cases :
        (b c : Bool)
        → first_inequality s.waiting s.queue_size
            (get_metrics v.buffer v.fastest)
            (get_metrics v.buffer v.available)
          ≡ b
        → second_inequality s.queue_size
            (get_metrics v.buffer v.fastest)
            (get_metrics v.buffer v.available)
          ≡ c
        → Settled (evaluate s record_stats v) v.available
          ⊎ Waits s (evaluate s record_stats v) v.fastest
    cases false c e f = rw e (inl (refl, refl, refl))
    cases true true e f = rw (e, f) (inr (refl, refl, refl, refl, refl))
    cases true false e f = rw (e, f) (inl (refl, refl, refl))

named_false : (id : TransportId) → id ≢ no_id → (id == no_id) ≡ false
named_false id n = ground (arith, eq_iff id no_id)

select_scanned_cases :
    (s : EcfSelector) (record_stats : Bool) (v : Scan)
    → v.available ≢ no_id
    → Settled (select_scanned s record_stats v) v.available
      ⊎ Waits s (select_scanned s record_stats v) v.fastest
unfolding select_scanned settle
select_scanned_cases s record_stats v n =
    let named : (v.available == no_id) ≡ false = named_false v.available n in
    rw named (elim (Bool-cases (v.fastest == v.available)) [
      | inl e ↦
          rw e (inl ((eq_iff v.fastest v.available).0 e, refl, (eq_iff v.fastest v.available).0 e))
      | inr e ↦ rw e (evaluate_cases s record_stats v)
    ])

none_allowed :
    (m : Map TransportId TransportInfo)
    → AllProper m
    → NoneBelow (λ i. i.sending_allowed) smoothed_of max_u64 m
    → NoneAllowed m
none_allowed [] p b = tt
none_allowed ((id, info) ∷ rest) p b = elim (Bool-cases info.sending_allowed) [
  | inl e ↦ absurd (omega (arith, b.0 e))
  | inr e ↦ (e, none_allowed rest p.1 b.1)
]

unavailable :
    (s : EcfSelector) (record_stats : Bool) (v : Scan)
    → v.available ≡ no_id
    → select_scanned s record_stats v ≡ (s, no_id)
unfolding select_scanned
unavailable s record_stats v e = rw e

module _ (e e' : TransportId × TransportInfo) (rest : Map TransportId TransportInfo)
    (proper : AllProper (e ∷ e' ∷ rest)) where
  abbrev m : Map TransportId TransportInfo
  m = e ∷ e' ∷ rest

  fastest_least : LeastEntry (λ i. true) base_of (scan start m).fastest m
  fastest_least =
      rw (fastest-scan start m) (elim (pick-Picked (λ i. true) base_of no_id max_u64 m) [
        | inl (f, b) ↦ absurd (omega (arith, b.0 refl))
        | inr (i, k, t, l, b) ↦ (i, k, t, b)
      ])

  -- The least entry that may send, or nothing that may.
  available_cases :
      (LeastEntry (λ i. i.sending_allowed) smoothed_of (scan start m).available m
        × ((scan start m).available ≢ no_id))
      ⊎ ((scan start m).available ≡ no_id) × NoneAllowed m
  available_cases =
      rw (available-scan start m)
        (elim (pick-Picked (λ i. i.sending_allowed) smoothed_of no_id max_u64 m) [
          | inl (f, b) ↦ inr (f, none_allowed m proper b)
          | inr (i, k, t, l, b) ↦ inl ((i, k, t, b), proper_of_mem _ i m proper k)
        ])

-- The three results of an evaluation: a transport is chosen, the selector waits, or none may send.
abbrev pub Outcome :
    EcfSelector → Map TransportId TransportInfo → EcfSelector × TransportId → Type 0
Outcome s m (s', r) =
    ((s'.waiting ≡ false)
      × (s'.last_selected_transport ≡ r)
      × LeastEntry (λ i. i.sending_allowed) smoothed_of r m)
    ⊎ ((r ≡ no_id)
        × (s'.waiting ≡ true)
        × (s'.total_selections ≡ s.total_selections)
        × (s'.last_selected_transport ≡ s.last_selected_transport)
        × LeastEntry (λ i. true) base_of s'.waiting_for_transport m)
    ⊎ ((r ≡ no_id) × (s' ≡ s) × NoneAllowed m)

select_transport_ecf-scan :
    (s : EcfSelector) (record_stats : Bool) (e e' : TransportId × TransportInfo)
    (rest : Map TransportId TransportInfo)
    → s.transports ≡ e ∷ e' ∷ rest
    → select_transport_ecf s record_stats
      ≡ select_scanned s record_stats (scan start (e ∷ e' ∷ rest))
unfolding select_transport_ecf
select_transport_ecf-scan s record_stats e e' rest same =
    ap (λ t. select_from s record_stats t) same

-- With two or more transports that have names and int64 round-trip times, an evaluation does one of three
-- things. It chooses a transport that may send and has the least smoothed round-trip time of those, and
-- waits no more. Or it waits, chooses and counts no transport, and notes one with the least base
-- round-trip time of all. Or no transport may send, and it changes nothing.
pub select_transport_ecf_lem :
    (s : EcfSelector) (record_stats : Bool) (e e' : TransportId × TransportInfo)
    (rest : Map TransportId TransportInfo)
    → s.transports ≡ e ∷ e' ∷ rest
    → AllProper (e ∷ e' ∷ rest)
    → Outcome s (e ∷ e' ∷ rest) (select_transport_ecf s record_stats)
select_transport_ecf_lem s record_stats e e' rest same proper =
    let m : Map TransportId TransportInfo = e ∷ e' ∷ rest in
    let v : Scan = scan start m in
    subst (Outcome s m) (sym (select_transport_ecf-scan s record_stats e e' rest same))
      (elim (available_cases e e' rest proper) [
        | inl (least, named) ↦ elim (select_scanned_cases s record_stats v named) [
          | inl (r, w, l) ↦ inl (
            w,
            l ∙ sym r,
            subst (λ k. LeastEntry (λ i. i.sending_allowed) smoothed_of k m) (sym r) least,
          )
          | inr (r, w, f, t, l) ↦ inr (
              inl (
                r,
                w,
                t,
                l,
                subst (λ k. LeastEntry (λ i. true) base_of k m) (sym f)
                    (fastest_least e e' rest proper),
              ))
        ]
        | inr (missing, nobody) ↦
            subst (Outcome s m) (sym (unavailable s record_stats v missing))
              (inr (inr (refl, refl, nobody)))
      ])
