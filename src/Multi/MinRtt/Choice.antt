-- ===== src/Multi/MinRtt/Choice.antt =====
-- Which transport `MinRTTSelector` chooses.
use mathlib.Core.List.{Memᴰ}
use text.Mathlib.TextEquality.{eq_iff}
use iscp_go.Prelude.{
  ℕ, ◌≤◌, ◌<◌, ◌≡◌, ◌≢◌, refl, sym, ap, subst, ◌∙◌, ◌⊎◌, inl, inr, [], ◌∷◌, Bool, true, false,
  arith, ◌==◌, nat_eq, string_eq, if◌then◌else◌, Map, Bool-cases,
}
use iscp_go.Multi.Transports.{TransportId, no_id}
use iscp_go.Multi.Info.{TransportInfo, min_rtt, smoothed_rtt, rtt_to_microseconds}
use iscp_go.Multi.Stats.{max_u64}
use iscp_go.Multi.MinRtt.{Candidate, no_candidate, better, scan, choose}

abbrev pub base_of : TransportInfo → ℕ
base_of info = rtt_to_microseconds (min_rtt info)

abbrev pub smoothed_of : TransportInfo → ℕ
smoothed_of info = rtt_to_microseconds (smoothed_rtt info)

-- Lexicographic order of the base round-trip times and the smoothed ones.
abbrev pub NotAfter : ℕ → ℕ → ℕ → ℕ → Type 0
NotAfter b s b' s' = (b < b') ⊎ (b ≡ b') × (s ≤ s')

-- The round-trip times of a transport are those of an int64 duration, and it has a name.
abbrev pub IsProper : TransportId → TransportInfo → Type 0
IsProper id info =
    (id ≢ no_id) × (min_rtt info < 9223372036854775808) × (smoothed_rtt info < 9223372036854775808)

abbrev pub AllProper : Map TransportId TransportInfo → Type 0
AllProper [] = Unit {0}
AllProper ((id, info) ∷ rest) = IsProper id info × AllProper rest

-- No entry that passes the test comes before the candidate.
abbrev pub Least : (TransportInfo → Bool) → Candidate → Map TransportId TransportInfo → Type 0
Least test c [] = Unit {0}
Least test c ((id, info) ∷ rest) =
    (test info ≡ true → NotAfter c.base c.smoothed (base_of info) (smoothed_of info))
    × Least test c rest

-- The candidate is one of the entries that pass the test.
abbrev pub Among : (TransportInfo → Bool) → Candidate → Map TransportId TransportInfo → Type 0
Among test c m =
    (info : TransportInfo) × Memᴰ (c.id, info) m
    × (test info ≡ true)
    × (c.base ≡ base_of info)
    × (c.smoothed ≡ smoothed_of info)

-- One of the two loops: the candidates that pass a test.
best : (TransportInfo → Bool) → Candidate → Map TransportId TransportInfo → Candidate
best test c [] = c
best test c ((id, info) ∷ rest) = best test (if test info then better c id info else c) rest

scan-best :
    (c d : Candidate) (m : Map TransportId TransportInfo)
    → scan c d m ≡ (best (λ i. i.sending_allowed) c m, best (λ i. true) d m)
unfolding scan best
scan-best c d [] = refl
scan-best c d ((id, info) ∷ rest) =
    scan-best (if info.sending_allowed then better c id info else c) (better d id info) rest

-- A step never moves a candidate back, and passes what it has seen.
better_lem :
    (c : Candidate) (id : TransportId) (info : TransportInfo)
    → NotAfter (better c id info).base (better c id info).smoothed c.base c.smoothed
      × NotAfter
          (better c id info).base
          (better c id info).smoothed
          (base_of info)
          (smoothed_of info)
unfolding better
better_lem c id info = ground arith

NotAfter-trans :
    (b s b' s' b'' s'' : ℕ) → NotAfter b s b' s' → NotAfter b' s' b'' s'' → NotAfter b s b'' s''
NotAfter-trans b s b' s' b'' s'' h k = ground arith

better_step :
    (test : TransportInfo → Bool) (c : Candidate) (id : TransportId) (info : TransportInfo)
    → let c' = if test info then better c id info else c in
      NotAfter c'.base c'.smoothed c.base c.smoothed
      × (test info ≡ true → NotAfter c'.base c'.smoothed (base_of info) (smoothed_of info))
better_step test c id info = elim (Bool-cases (test info)) [
  | inl e ↦ rw e ((better_lem c id info).0, λ _. (better_lem c id info).1)
  | inr e ↦ rw e (inr (refl, omega arith), λ q. cc)
]

best_before :
    (test : TransportInfo → Bool) (c : Candidate) (m : Map TransportId TransportInfo)
    → NotAfter (best test c m).base (best test c m).smoothed c.base c.smoothed
unfolding best
best_before test c [] = inr (refl, omega arith)
best_before test c ((id, info) ∷ rest) =
    let c' : Candidate = if test info then better c id info else c in
    NotAfter-trans (best test c' rest).base (best test c' rest).smoothed c'.base c'.smoothed c.base
      c.smoothed (best_before test c' rest) (better_step test c id info).0

best-Least :
    (test : TransportInfo → Bool) (c : Candidate) (m : Map TransportId TransportInfo)
    → Least test (best test c m) m
unfolding best
best-Least test c [] = tt
best-Least test c ((id, info) ∷ rest) =
    let c' : Candidate = if test info then better c id info else c in
    (
      λ q.
          NotAfter-trans (best test c' rest).base (best test c' rest).smoothed c'.base c'.smoothed
            (base_of info) (smoothed_of info) (best_before test c' rest)
            ((better_step test c id info).1 q),
      best-Least test c' rest,
    )

-- A step keeps the candidate or takes the entry.
better_cases :
    (test : TransportInfo → Bool) (c : Candidate) (id : TransportId) (info : TransportInfo)
    → ((if test info then better c id info else c) ≡ c)
      ⊎ ((if test info then better c id info else c)
          ≡ record { id = id; base = base_of info; smoothed = smoothed_of info })
        × (test info ≡ true)
unfolding better
better_cases test c id info = ground arith

best_cases :
    (test : TransportInfo → Bool) (c : Candidate) (m : Map TransportId TransportInfo)
    → (best test c m ≡ c) ⊎ Among test (best test c m) m
unfolding best
best_cases test c [] = inl refl
best_cases test c ((id, info) ∷ rest) =
    elim (best_cases test (if test info then better c id info else c) rest) [
      | inl e ↦ elim (better_cases test c id info) [
        | inl f ↦ inl (e ∙ f)
        | inr (f, t) ↦ inr (
          info,
          Memᴰ.head (ap {B = TransportId × TransportInfo} (λ k. (k.id, info)) (e ∙ f)),
          t,
          ap (λ (k : Candidate). k.base) (e ∙ f),
          ap (λ (k : Candidate). k.smoothed) (e ∙ f),
        )
      ]
      | inr (i, m, t, b, s) ↦ inr (i, Memᴰ.tail m, t, b, s)
    ]

abbrev pub NoneAllowed : Map TransportId TransportInfo → Type 0
NoneAllowed [] = Unit {0}
NoneAllowed ((id, info) ∷ rest) = (info.sending_allowed ≡ false) × NoneAllowed rest

pub proper_of_mem :
    (id : TransportId) (info : TransportInfo) (m : Map TransportId TransportInfo)
    → AllProper m
    → Memᴰ (id, info) m
    → id ≢ no_id
proper_of_mem id info [] p m = elim m [ ]
proper_of_mem id info ((j, i) ∷ rest) p (Memᴰ.head e) =
    λ q. p.0.0 (sym (ap (λ (x : TransportId × TransportInfo). x.0) e) ∙ q)
proper_of_mem id info ((j, i) ∷ rest) p (Memᴰ.tail m) = proper_of_mem id info rest p.1 m

-- Nothing that passes the test can lie after the largest numbers.
none_after_max :
    (info : TransportInfo) (id : TransportId)
    → IsProper id info
    → ¬ NotAfter max_u64 max_u64 (base_of info) (smoothed_of info)
none_after_max info id p h = ground arith

none_allowed :
    (m : Map TransportId TransportInfo)
    → AllProper m
    → Least (λ i. i.sending_allowed) no_candidate m
    → NoneAllowed m
none_allowed [] p l = tt
none_allowed ((id, info) ∷ rest) p l = elim (Bool-cases info.sending_allowed) [
  | inl e ↦ absurd (none_after_max info id p.0 (l.0 e))
  | inr e ↦ (e, none_allowed rest p.1 l.1)
]

-- The identifier of the first candidate, or of the second if the first has no name.
abbrev named : Candidate → Candidate → TransportId
named selected fallback = if selected.id == no_id then fallback.id else selected.id

choose-best :
    (e e' : TransportId × TransportInfo) (rest : Map TransportId TransportInfo)
    → let m = e ∷ e' ∷ rest in
      choose m
      ≡ named (best (λ i. i.sending_allowed) no_candidate m) (best (λ i. true) no_candidate m)
unfolding choose
choose-best (id, info) (id', info') rest =
    rw (scan-best no_candidate no_candidate ((id, info) ∷ (id', info') ∷ rest))

named_first : (c d : Candidate) → c.id ≢ no_id → c.id ≡ named c d
named_first c d h = ground (arith, eq_iff c.id no_id)

named_second : (c d : Candidate) → c ≡ no_candidate → d.id ≡ named c d
named_second c d e = rw e

-- Among two or more transports with names and int64 round-trip times, the choice is a transport that may
-- send and that no other such transport precedes, in the order of the base round-trip times and, where
-- these are equal, of the smoothed ones; if none may send, it is one that no transport at all precedes.
pub choose_lem :
    (e e' : TransportId × TransportInfo) (rest : Map TransportId TransportInfo)
    → AllProper (e ∷ e' ∷ rest)
    → (c : Candidate) × (c.id ≡ choose (e ∷ e' ∷ rest))
      × (Among (λ i. i.sending_allowed) c (e ∷ e' ∷ rest)
            × Least (λ i. i.sending_allowed) c (e ∷ e' ∷ rest)
          ⊎ NoneAllowed (e ∷ e' ∷ rest)
            × Among (λ i. true) c (e ∷ e' ∷ rest)
            × Least (λ i. true) c (e ∷ e' ∷ rest))
choose_lem (id, info) (id', info') rest p =
    let m : Map TransportId TransportInfo = (id, info) ∷ (id', info') ∷ rest in
    elim (best_cases (λ i. i.sending_allowed) no_candidate m) [
      | inr among ↦ (
        best (λ i. i.sending_allowed) no_candidate m,
        named_first (best (λ i. i.sending_allowed) no_candidate m) (best (λ i. true) no_candidate m)
              (proper_of_mem _ among.0 m p among.1)
            ∙ sym (choose-best (id, info) (id', info') rest),
        inl (among, best-Least (λ i. i.sending_allowed) no_candidate m),
      )
      | inl unseen ↦ elim (best_cases (λ i. true) no_candidate m) [
        | inr among ↦ (
          best (λ i. true) no_candidate m,
          named_second (best (λ i. i.sending_allowed) no_candidate m)
                (best (λ i. true) no_candidate m) unseen
              ∙ sym (choose-best (id, info) (id', info') rest),
          inr (
            none_allowed m p (
                subst (λ k. Least (λ i. i.sending_allowed) k m) unseen
                  (best-Least (λ i. i.sending_allowed) no_candidate m)),
            among,
            best-Least (λ i. true) no_candidate m,
          ),
        )
        | inl nothing ↦ absurd (
            none_after_max info id p.0 (
              subst (λ k. NotAfter k.base k.smoothed (base_of info) (smoothed_of info)) nothing
                ((best-Least (λ i. true) no_candidate m).0 refl)))
      ]
    ]
