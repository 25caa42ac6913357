-- ===== src/Segment/Expiry.antt =====
-- Read buffers whose time has run out.
use iscp_go.Prelude.{
  ℕ, ◌≡◌, refl, inl, inr, [], ◌∷◌, Option, none, some, arith, ltb, ◌==◌, nat_eq, if◌then◌else◌,
  lookup, Map, DistinctKeys, Bool-cases, nat_beq_iff, subst,
}
use iscp_go.Segment.ReadBuffer.{ReadBuffer, ReadBuffers, without_expired, remove_expired}

-- An entry whose time is not before `now`.
abbrev pub alive : ℕ → Option ReadBuffer → Option ReadBuffer
alive now none = none
alive now (some b) = if ltb b.expired_at now then none else some b

lookup-without_expired :
    (now k : ℕ) (m : Map ℕ ReadBuffer)
    → DistinctKeys m
    → lookup k (without_expired now m) ≡ alive now (lookup k m)
unfolding without_expired lookup
lookup-without_expired now k [] d = refl
lookup-without_expired now k ((j, b) ∷ m) d = elim (Bool-cases (j == k)) [
  | inl q ↦ ground (
    arith,
    lookup-without_expired now k m d.1,
    subst (λ x. lookup x m ≡ none) ((nat_beq_iff j k).0 q) d.0,
  )
  | inr q ↦ ground (arith, lookup-without_expired now k m d.1)
]

-- `RemoveExpired` drops exactly the entries whose expiry lies before the time of the call, and keeps
-- every other entry as it is, in read buffers whose keys are distinct.
pub lookup-remove_expired :
    (t : ReadBuffers) (now k : ℕ)
    → DistinctKeys t.read_buffer
    → lookup k (remove_expired t now).read_buffer ≡ alive now (lookup k t.read_buffer)
unfolding remove_expired
lookup-remove_expired t now k d = lookup-without_expired now k t.read_buffer d
