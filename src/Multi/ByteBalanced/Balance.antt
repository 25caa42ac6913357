-- ===== src/Multi/ByteBalanced/Balance.antt =====
-- Each call keeps the counters of the transports balanced.
use mathlib.Core.List.{Memᴰ}
use text.Mathlib.TextEquality.{eq_iff}
use native.Mathlib.Nat.{mod-eq_of_lt}
use iscp_go.Prelude.{
  ltb→le, ℕ, ◌+◌, ◌≤◌, ◌<◌, ◌≡◌, ◌≢◌, refl, ap, subst, ◌∙◌, inl, inr, List, [], ◌∷◌, some, Bool,
  true, false, arith, ltb, ◌==◌, nat_eq, string_eq, if◌then◌else◌, Map, lookup, insert,
  lookup-insert, Bool-cases,
}
use iscp_go.Multi.Transports.{TransportId, no_id, connected, TransportMap, select_available}
use iscp_go.Multi.Stats.{record_selection, max_u64, counter, u64}
use iscp_go.Multi.ByteBalanced.{
  select_from, charge, recorded, through, ByteBalancedSelector, bytes_of, scan, select_min_bytes,
  get,
}
use iscp_go.Multi.ByteBalanced.Scan.{Usable, scan_lem}

-- No two of the transports are further apart than the bound.
abbrev pub Balanced : ℕ → List TransportId → Map TransportId ℕ → Type 0
Balanced bound ids acc =
    (i j : TransportId) → Memᴰ i ids → Memᴰ j ids → bytes_of acc i ≤ bytes_of acc j + bound

-- No counter passes the total.
abbrev pub Within : ℕ → Map TransportId ℕ → Type 0
Within total acc = (i : TransportId) → bytes_of acc i ≤ total

-- Every transport of the selector has a name and is connected.
abbrev pub AllUp : TransportMap → List TransportId → Type 0
AllUp ts ids = (i : TransportId) → Memᴰ i ids → (i ≢ no_id) × (lookup i ts ≡ some connected)

module _ (ts : TransportMap) (first : TransportId) (rest : List TransportId)
    (up : AllUp ts (first ∷ rest)) where
  abbrev pub chosen : Map TransportId ℕ → TransportId
  chosen acc = scan ts acc no_id max_u64 (first ∷ rest)

  usable : (i : TransportId) → Memᴰ i (first ∷ rest) → Usable ts (first ∷ rest) i
  usable i m = (m, rw (up i m).1)

  pub chosen_least :
      (acc : Map TransportId ℕ) (total : ℕ)
      → Within total acc
      → total < max_u64
      → Memᴰ (chosen acc) (first ∷ rest)
        × ((j : TransportId) → Memᴰ j (first ∷ rest) → bytes_of acc (chosen acc) ≤ bytes_of acc j)
  chosen_least acc total w l =
      let (u, g) =
        scan_lem ts acc (first ∷ rest) first (usable first (Memᴰ.head refl))
          (omega (arith, w first)) in
      (u.0, λ j m. g j (usable j m))

  -- The selector after a call, and the transport chosen.
  abbrev pub charged : ByteBalancedSelector → ℕ → ByteBalancedSelector × TransportId
  charged s bs_size =
      let id = chosen s.accumulated_bytes in
      let s' : ByteBalancedSelector = record s { stats = record_selection s.stats id } in
      if ltb 0 bs_size
      then (
        record s' {
          accumulated_bytes =
              insert id (u64 (bytes_of s.accumulated_bytes id + bs_size)) s.accumulated_bytes;
        },
        id,
      )
      else (s', id)

named_false : (id : TransportId) → id ≢ no_id → (id == no_id) ≡ false
named_false id n = ground (arith, eq_iff id no_id)

select_kept :
    (ts : TransportMap) (id : TransportId)
    → lookup id ts ≡ some connected
    → select_available id ts ≡ id
unfolding select_available
select_kept ts id h = rw h

nonempty :
    (ts : TransportMap) (first : TransportId) (rest : List TransportId) (s : ByteBalancedSelector)
    (id : TransportId)
    → lookup first ts ≡ some connected
    → scan ts s.accumulated_bytes no_id max_u64 (first ∷ rest) ≡ id
    → (id == no_id) ≡ false
    → select_from s (first ∷ rest) (some ts) ≡ recorded s id
unfolding select_from lookup
nonempty [] first rest s id h q n = cc
nonempty (t ∷ ts) first rest s id h q n = rw (q, n)

charge_named :
    (bs_size : ℕ) (s : ByteBalancedSelector) (id : TransportId)
    → (id == no_id) ≡ false
    → charge bs_size (s, id) ≡ (
        if ltb 0 bs_size
        then (
          record s {
            accumulated_bytes =
                insert id (u64 (bytes_of s.accumulated_bytes id + bs_size)) s.accumulated_bytes;
          },
          id,
        )
        else (s, id))
unfolding charge
charge_named bs_size s id n = rw n

module _ (ts : TransportMap) (first : TransportId) (rest : List TransportId)
    (up : AllUp ts (first ∷ rest)) (s : ByteBalancedSelector) (e : s.transport_ids ≡ first ∷ rest)
    (m : Memᴰ (chosen ts first rest up s.accumulated_bytes) (first ∷ rest)) where
  abbrev id : TransportId
  id = chosen ts first rest up s.accumulated_bytes

  select_chosen : select_min_bytes s (some ts) ≡ recorded s id
  unfolding select_min_bytes
  select_chosen =
      ap (λ l. select_from s l (some ts)) e
      ∙ nonempty ts first rest s id (up first (Memᴰ.head refl)).1 refl (named_false id (up id m).0)

  pub get-charged : (bs_size : ℕ) → get s (some ts) bs_size ≡ charged ts first rest up s bs_size
  unfolding get
  get-charged bs_size =
      ap (λ r. charge bs_size (through (some ts) r)) select_chosen
      ∙ ap (λ k. charge bs_size (record s { stats = record_selection s.stats id }, k))
          (select_kept ts id (up id m).1)
      ∙ charge_named bs_size (record s { stats = record_selection s.stats id }) id
          (named_false id (up id m).0)

bytes_of-insert :
    (acc : Map TransportId ℕ) (id : TransportId) (n : ℕ) (j : TransportId)
    → bytes_of acc id + n < max_u64
    → bytes_of (insert id (u64 (bytes_of acc id + n)) acc) j
      ≡ (if id == j then bytes_of acc j + n else bytes_of acc j)
bytes_of-insert acc id n j l =
    ap counter (lookup-insert id j (u64 (bytes_of acc id + n)) acc) ∙ elim (Bool-cases (id == j)) [
      | inl q ↦ rw q (mod-eq_of_lt (omega arith) ∙ ap (λ k. bytes_of acc k + n) ((eq_iff id j).0 q))
      | inr q ↦ rw q
    ]

unchanged : (b : Bool) (x n : ℕ) → n ≤ 0 → x ≡ (if b then x + n else x)
unchanged b x n h = ground arith

spread :
    (bi bj : Bool) (x y n bound : ℕ)
    → x ≤ y + bound
    → n ≤ bound
    → (bi ≡ true → x ≤ y)
    → (if bi then x + n else x) ≤ (if bj then y + n else y) + bound
spread true bj x y n bound h b least = ground (arith, least refl)
spread false bj x y n bound h b least = ground arith

grown : (b : Bool) (x n total : ℕ) → x ≤ total → (if b then x + n else x) ≤ total + n
grown b x n total h = ground arith

-- Consecutive calls, with the sizes of the data.
unfoldable pub run : TransportMap → ByteBalancedSelector → List ℕ → ByteBalancedSelector
run ts s [] = s
run ts s (n ∷ ns) = run ts (get s (some ts) n).0 ns

abbrev pub sum : List ℕ → ℕ
sum [] = 0
sum (n ∷ ns) = n + sum ns

abbrev pub AllAtMost : ℕ → List ℕ → Type 0
AllAtMost bound [] = Unit {0}
AllAtMost bound (n ∷ ns) = (n ≤ bound) × AllAtMost bound ns

module _ (ts : TransportMap) (first : TransportId) (rest : List TransportId)
    (up : AllUp ts (first ∷ rest)) (bound : ℕ) where
  pub record Inv (s : ByteBalancedSelector) (total : ℕ) : Type 0 where
    pub same_ids : s.transport_ids ≡ first ∷ rest
    pub balanced : Balanced bound (first ∷ rest) s.accumulated_bytes
    pub within : Within total s.accumulated_bytes

  pub charged_bytes :
      (s : ByteBalancedSelector) (bs_size total : ℕ)
      → Within total s.accumulated_bytes
      → total + bs_size < max_u64
      → (j : TransportId)
      → bytes_of (charged ts first rest up s bs_size).0.accumulated_bytes j ≡ (
          if chosen ts first rest up s.accumulated_bytes == j
          then bytes_of s.accumulated_bytes j + bs_size
          else bytes_of s.accumulated_bytes j)
  charged_bytes s bs_size total w l j = elim (Bool-cases (ltb 0 bs_size)) [
    | inl q ↦ rw q (
        bytes_of-insert s.accumulated_bytes (chosen ts first rest up s.accumulated_bytes) bs_size j
          (omega (arith, w (chosen ts first rest up s.accumulated_bytes))))
    | inr q ↦ rw q (
        unchanged (chosen ts first rest up s.accumulated_bytes == j)
          (bytes_of s.accumulated_bytes j) bs_size (omega (arith, ltb→le 0 bs_size q)))
  ]

  charged_ids :
      (s : ByteBalancedSelector) (bs_size : ℕ)
      → (charged ts first rest up s bs_size).0.transport_ids ≡ s.transport_ids
  charged_ids s bs_size = ground arith

  pub get-Inv :
      (s : ByteBalancedSelector) (bs_size total : ℕ)
      → Inv s total
      → bs_size ≤ bound
      → total + bs_size < max_u64
      → Inv (get s (some ts) bs_size).0 (total + bs_size)
  get-Inv s bs_size total v b l =
      let (m, least) =
        chosen_least ts first rest up s.accumulated_bytes total v.within (omega arith) in
      let id : TransportId = chosen ts first rest up s.accumulated_bytes in
      let bytes = charged_bytes s bs_size total v.within l in
      rw (get-charged ts first rest up s v.same_ids m bs_size) (record {
        same_ids = charged_ids s bs_size ∙ v.same_ids;
        balanced = λ i j mi mj.
            rw (bytes i, bytes j)
              (spread (id == i) (id == j) (bytes_of s.accumulated_bytes i)
                (bytes_of s.accumulated_bytes j) bs_size bound (v.balanced i j mi mj) b
                (λ q.
                  subst (λ k. bytes_of s.accumulated_bytes k ≤ bytes_of s.accumulated_bytes j)
                    ((eq_iff id i).0 q) (least j mj)));
        within = λ i.
            rw (bytes i)
              (grown (id == i) (bytes_of s.accumulated_bytes i) bs_size total (v.within i));
      })

  pub run-Inv :
      (s : ByteBalancedSelector) (sizes : List ℕ) (total : ℕ)
      → Inv s total
      → AllAtMost bound sizes
      → total + sum sizes < max_u64
      → Inv (run ts s sizes) (total + sum sizes)
  unfolding run
  run-Inv s [] total v b l = subst (Inv s) (omega arith) v
  run-Inv s (n ∷ ns) total v b l = subst (Inv (run ts (get s (some ts) n).0 ns)) (omega arith) (
      run-Inv (get s (some ts) n).0 ns (total + n) (get-Inv s n total v b.0 (omega arith)) b.1
        (omega arith))
