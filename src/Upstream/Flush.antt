-- ===== src/Upstream/Flush.antt =====
-- The three ends of a flush.
use iscp_go.Prelude.{◌≡◌, none, ◌==◌, nat_eq, length, Bool-cases, Option-cases, inl, inr}
use iscp_go.Upstream.{
  Upstream, Flushed, empty_buffer, refused, InvalidState, flush, flush_valid, validate_state,
}

pub flush_cases :
    (u : Upstream) (P : Upstream × Flushed → Type 0)
    → P (u, empty_buffer)
    → ((e : InvalidState) → P (u, refused e))
    → (validate_state u ≡ none → P (flush_valid u))
    → P (flush u)
unfolding flush
flush_cases u P nothing refuse valid = elim (Bool-cases (length u.send_buffer == 0)) [
  | inl e ↦ rw e nothing
  | inr e ↦ rw e (elim (Option-cases (validate_state u)) [
    | inl v ↦ rw v (valid v)
    | inr (x, v) ↦ rw v (refuse x)
  ])
]
