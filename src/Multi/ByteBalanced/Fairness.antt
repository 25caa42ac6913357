-- ===== src/Multi/ByteBalanced/Fairness.antt =====
-- The loads that a selector gives to its transports stay balanced.
use mathlib.Core.List.{Memᴰ}
use iscp_go.Prelude.{
  ℕ, ◌+◌, ◌≤◌, ◌<◌, ◌≡◌, refl, ap, ◌∙◌, List, [], ◌∷◌, some, Bool, arith, ◌==◌, nat_eq, string_eq,
  if◌then◌else◌, lookup,
}
use iscp_go.Multi.Transports.{TransportId, TransportMap}
use iscp_go.Multi.Stats.{Stats, max_u64}
use iscp_go.Multi.ByteBalanced.{ByteBalancedSelector, bytes_of, get}
use iscp_go.Multi.ByteBalanced.Balance.{
  AllUp, chosen, chosen_least, charged, get-charged, run, sum, AllAtMost, Inv, charged_bytes,
  get-Inv, run-Inv,
}

-- What consecutive calls give to a transport: the sizes of those calls that return it.
unfoldable pub given : TransportMap → ByteBalancedSelector → List ℕ → TransportId → ℕ
given ts s [] i = 0
given ts s (n ∷ ns) i =
    let r = get s (some ts) n in let rest = given ts r.0 ns i in if r.1 == i then rest + n else rest

-- Every call returns one of the transports.
unfoldable pub AllFrom : TransportMap → ByteBalancedSelector → List TransportId → List ℕ → Type 0
AllFrom ts s ids [] = Unit {0}
AllFrom ts s ids (n ∷ ns) = let r = get s (some ts) n in Memᴰ r.1 ids × AllFrom ts r.0 ids ns

later_given :
    (b : Bool) (x rest n : ℕ) → (if b then x + n else x) + rest ≡ x + (if b then rest + n else rest)
later_given b x rest n = ground arith

module _ (ts : TransportMap) (first : TransportId) (rest : List TransportId)
    (up : AllUp ts (first ∷ rest)) (bound : ℕ) where
  -- A call returns one of the transports, and adds its size to the counter of that one.
  get_gives :
      (s : ByteBalancedSelector) (n total : ℕ)
      → Inv ts first rest up bound s total
      → total + n < max_u64
      → Memᴰ (get s (some ts) n).1 (first ∷ rest)
        × ((i : TransportId)
            → bytes_of (get s (some ts) n).0.accumulated_bytes i ≡ (
                if (get s (some ts) n).1 == i
                then bytes_of s.accumulated_bytes i + n
                else bytes_of s.accumulated_bytes i))
  get_gives s n total v l =
      let (m, least) =
        chosen_least ts first rest up s.accumulated_bytes total v.within (omega arith) in
      let id : TransportId = chosen ts first rest up s.accumulated_bytes in
      let returned : (charged ts first rest up s n).1 ≡ id = ground arith in
      rw (get-charged ts first rest up s v.same_ids m n, returned)
        (m, charged_bytes ts first rest up bound s n total v.within l)

  run-given :
      (s : ByteBalancedSelector) (sizes : List ℕ) (total : ℕ)
      → Inv ts first rest up bound s total
      → AllAtMost bound sizes
      → total + sum sizes < max_u64
      → AllFrom ts s (first ∷ rest) sizes
        × ((i : TransportId)
            → bytes_of (run ts s sizes).accumulated_bytes i
              ≡ bytes_of s.accumulated_bytes i + given ts s sizes i)
  unfolding run given AllFrom
  run-given s [] total v b l = (tt, λ i. omega arith)
  run-given s (n ∷ ns) total v b l =
      let (m, one) = get_gives s n total v (omega arith) in
      let (ms, later) =
        run-given (get s (some ts) n).0 ns (total + n)
          (get-Inv ts first rest up bound s n total v b.0 (omega arith)) b.1 (omega arith) in
      (
        (m, ms),
        λ i.
            later i
            ∙ ap (λ x. x + given ts (get s (some ts) n).0 ns i) (one i)
            ∙ later_given ((get s (some ts) n).1 == i) (bytes_of s.accumulated_bytes i)
                (given ts (get s (some ts) n).0 ns i) n,
      )

-- A selector of these transports before its first call.
abbrev pub unused : TransportId → List TransportId → Stats → ByteBalancedSelector
unused first rest stats = record {
  transport_ids = first ∷ rest;
  accumulated_bytes = [];
  stats = stats;
}

-- While all the transports of a selector are connected, each call of `Get` on it returns one of them, and the
-- sizes passed to the calls that return one sum up to at most the sum for any other one plus the
-- largest size, however many calls there are, as long as all the sizes together stay below the
-- largest uint64 and the selector began with empty counters.
pub run-Balanced :
    (ts : TransportMap) (first : TransportId) (rest : List TransportId) (stats : Stats) (bound : ℕ)
    (sizes : List ℕ) (i j : TransportId)
    → AllUp ts (first ∷ rest)
    → AllAtMost bound sizes
    → sum sizes < max_u64
    → Memᴰ i (first ∷ rest)
    → Memᴰ j (first ∷ rest)
    → AllFrom ts (unused first rest stats) (first ∷ rest) sizes
      × (given ts (unused first rest stats) sizes i
          ≤ given ts (unused first rest stats) sizes j + bound)
unfolding lookup
run-Balanced ts first rest stats bound sizes i j up b l mi mj =
    let s = unused first rest stats in
    let start : Inv ts first rest up bound s 0 = record {
      same_ids = refl;
      balanced = λ i j mi mj. omega arith;
      within = λ i. omega arith;
    } in
    let (from, equal) = run-given ts first rest up bound s sizes 0 start b (omega arith) in
    let balanced = (run-Inv ts first rest up bound s sizes 0 start b (omega arith)).balanced in
    (from, omega (arith, equal i, equal j, balanced i j mi mj))
