-- ===== src/Multi/ByteBalanced/Scan.antt =====
-- The loop of `selectMinBytes` finds a least loaded transport.
use mathlib.Core.List.{Memᴰ}
use iscp_go.Prelude.{
  ℕ, ◌≤◌, ◌<◌, ◌≡◌, refl, sym, subst, ◌⊎◌, inl, inr, List, [], ◌∷◌, Bool, true, false, ◌&&◌, arith,
  ltb, nat_eq, string_eq, Map, lookup, Bool-cases,
}
use iscp_go.Multi.Transports.{TransportId, no_id, TransportMap}
use iscp_go.Multi.Stats.{max_u64}
use iscp_go.Multi.ByteBalanced.{has_entry, bytes_of, scan}

-- An identifier that stands in the list and in the map of transports.
abbrev pub Usable : TransportMap → List TransportId → TransportId → Type 0
Usable ts ids id = Memᴰ id ids × (has_entry (lookup id ts) ≡ true)

and_lt : (b : Bool) (x y : ℕ) → b && ltb x y ≡ true → (b ≡ true) × (x < y)
and_lt b x y h = ground arith

and_le : (b : Bool) (x y : ℕ) → b && ltb x y ≡ false → b ≡ true → y ≤ x
and_le b x y h k = ground arith

module _ (ts : TransportMap) (acc : Map TransportId ℕ) where
  -- What holds of the first identifier, if it is usable, and of all in the rest, holds of all.
  each :
      (Q : TransportId → Type 0) (id : TransportId) (rest : List TransportId)
      → (has_entry (lookup id ts) ≡ true → Q id)
      → ((j : TransportId) → Usable ts rest j → Q j)
      → (j : TransportId) → Usable ts (id ∷ rest) j
      → Q j
  each Q id rest here there j (Memᴰ.head q, u) =
      subst Q (sym q) (here (subst (λ k. has_entry (lookup k ts) ≡ true) q u))
  each Q id rest here there j (Memᴰ.tail m, u) = there j (m, u)

  -- The loop keeps the identifier that it began with, and then no usable one lies below its bound; or it
  -- ends with a usable one that lies below that bound and not above any other.
  abbrev Scanned : TransportId → ℕ → List TransportId → TransportId → Type 0
  Scanned selected bound ids r =
      (r ≡ selected) × ((j : TransportId) → Usable ts ids j → bound ≤ bytes_of acc j)
      ⊎ Usable ts ids r
        × (bytes_of acc r < bound)
        × ((j : TransportId) → Usable ts ids j → bytes_of acc r ≤ bytes_of acc j)

  scan_taken :
      (id : TransportId) (bound : ℕ) (rest : List TransportId) (selected r : TransportId)
      → has_entry (lookup id ts) ≡ true
      → bytes_of acc id < bound
      → Scanned id (bytes_of acc id) rest r
      → Scanned selected bound (id ∷ rest) r
  scan_taken id bound rest selected r has below (inl (f, g)) = inr (
    (Memᴰ.head f, rw f has),
    rw f below,
    each (λ j. bytes_of acc r ≤ bytes_of acc j) id rest (λ _. rw f (omega arith))
        (λ j u. rw f (g j u)),
  )
  scan_taken id bound rest selected r has below (inr (v, l, g)) = inr (
    (Memᴰ.tail v.0, v.1),
    omega arith,
    each (λ j. bytes_of acc r ≤ bytes_of acc j) id rest (λ _. omega arith) g,
  )

  scan_passed :
      (id : TransportId) (bound : ℕ) (rest : List TransportId) (selected r : TransportId)
      → (has_entry (lookup id ts) ≡ true → bound ≤ bytes_of acc id)
      → Scanned selected bound rest r
      → Scanned selected bound (id ∷ rest) r
  scan_passed id bound rest selected r above (inl (f, g)) =
      inl (f, each (λ j. bound ≤ bytes_of acc j) id rest above g)
  scan_passed id bound rest selected r above (inr (v, l, g)) = inr (
    (Memᴰ.tail v.0, v.1),
    l,
    each (λ j. bytes_of acc r ≤ bytes_of acc j) id rest (λ h. omega (arith, above h)) g,
  )

  scan-Scanned :
      (selected : TransportId) (bound : ℕ) (ids : List TransportId)
      → Scanned selected bound ids (scan ts acc selected bound ids)
  unfolding scan
  scan-Scanned selected bound [] = inl (refl, λ j u. elim u.0 [ ])
  scan-Scanned selected bound (id ∷ rest) =
      elim (Bool-cases (has_entry (lookup id ts) && ltb (bytes_of acc id) bound)) [
        | inl e ↦
            let (has, below) = and_lt (has_entry (lookup id ts)) (bytes_of acc id) bound e in
            rw e (
              scan_taken id bound rest selected (scan ts acc id (bytes_of acc id) rest) has below
                (scan-Scanned id (bytes_of acc id) rest))
        | inr e ↦ rw e (
            scan_passed id bound rest selected (scan ts acc selected bound rest)
              (and_le (has_entry (lookup id ts)) (bytes_of acc id) bound e)
              (scan-Scanned selected bound rest))
      ]

  -- Of usable identifiers whose counters are below the largest uint64, the loop picks a least loaded one.
  pub scan_lem :
      (ids : List TransportId) (some_id : TransportId)
      → Usable ts ids some_id
      → bytes_of acc some_id < max_u64
      → Usable ts ids (scan ts acc no_id max_u64 ids)
        × ((j : TransportId)
            → Usable ts ids j
            → bytes_of acc (scan ts acc no_id max_u64 ids) ≤ bytes_of acc j)
  scan_lem ids some_id u l = elim (scan-Scanned no_id max_u64 ids) [
    | inl (f, g) ↦ absurd (omega (arith, g some_id u))
    | inr (v, b, g) ↦ (v, g)
  ]
