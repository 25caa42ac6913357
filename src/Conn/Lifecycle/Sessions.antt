-- ===== src/Conn/Lifecycle/Sessions.antt =====
-- Which sessions are open in a phase of a connection.
use iscp_go.Prelude.{
  ℕ, ◌<◌, ◌≡◌, ◌≢◌, ◌⊎◌, refl, inl, inr, Bool, true, false, ◌==◌, nat_eq, arith, if_cases,
  Bool-cases, nat_beq_iff,
}
use iscp_go.Status.{
  ConnStatus, conn_status_eq, conn_connected, conn_reconnecting, conn_closed, swap,
  compare_and_swap, compare_and_swap_not,
}
use iscp_go.Conn.Lifecycle.{
  Phase, idle, closing_old, dialing, dialled, assigning, swapping, Conn, shut, opened,
}

-- A session that `reconnect` has and has not stored yet.
abbrev pub Held : Phase → ℕ → Type 0
Held idle k = ⊥
Held (closing_old n) k = ⊥
Held dialing k = ⊥
Held (dialled n) k = k ≡ n
Held (assigning n) k = k ≡ n
Held swapping k = ⊥

-- In the phases after the old session was closed, up to the assignment, it is; before, it is the stored one.
abbrev pub OldClosed : Phase → (ℕ → Bool) → ℕ → Type 0
OldClosed idle is_open w = Unit {0}
OldClosed (closing_old n) is_open w = n ≡ w
OldClosed dialing is_open w = is_open w ≡ false
OldClosed (dialled n) is_open w = is_open w ≡ false
OldClosed (assigning n) is_open w = is_open w ≡ false
OldClosed swapping is_open w = Unit {0}

abbrev pub Unlocked : Phase → Type 0
Unlocked (assigning n) = ⊥
Unlocked swapping = ⊥
Unlocked idle = Unit {0}
Unlocked (closing_old n) = Unit {0}
Unlocked dialing = Unit {0}
Unlocked (dialled n) = Unit {0}

pub record InvAt (p : Phase) (c : Conn) : Type 0 where
  pub only : (n : ℕ) → c.is_open n ≡ true → (n ≡ c.wire_conn) ⊎ Held p n
  pub old : OldClosed p c.is_open c.wire_conn
  pub below : c.wire_conn < c.dials
  pub held_below : (n : ℕ) → Held p n → n < c.dials
  pub waiting : c.closes_waiting ≢ 0 → c.state ≡ conn_closed
  pub done :
      c.finished ≡ true → (c.state ≡ conn_closed) × Unlocked p × (c.is_open c.wire_conn ≡ false)

abbrev pub Inv : Conn → Type 0
Inv c = InvAt c.phase c

pub shut-true : (n k : ℕ) (f : ℕ → Bool) → shut n f k ≡ true → (k ≢ n) × (f k ≡ true)
shut-true n k f h = elim (Bool-cases (k == n)) [
  | inl q ↦ let g = rw q at h in absurd (cc)
  | inr q ↦ (λ p. let r = (nat_beq_iff k n).1 p in cc, rw q at h)
]

pub shut-false : (n k : ℕ) (f : ℕ → Bool) → f k ≡ false → shut n f k ≡ false
shut-false n k f h = if_cases (λ b. b ≡ false) (k == n) (λ q. refl) (λ q. h)

pub shut_same : (n k : ℕ) (f : ℕ → Bool) → k ≡ n → shut n f k ≡ false
shut_same n k f p =
    if_cases (λ b. b ≡ false) (k == n) (λ q. refl)
      (λ q. absurd (let r = (nat_beq_iff k n).1 p in cc))

pub opened-true : (n k : ℕ) (f : ℕ → Bool) → opened n f k ≡ true → (k ≡ n) ⊎ (f k ≡ true)
opened-true n k f h = elim (Bool-cases (k == n)) [
  | inl q ↦ inl ((nat_beq_iff k n).0 q)
  | inr q ↦ inr (rw q at h)
]

pub opened-false : (n k : ℕ) (f : ℕ → Bool) → k < n → f k ≡ false → opened n f k ≡ false
opened-false n k f l h =
    if_cases (λ b. b ≡ false) (k == n) (λ q. absurd (let r = (nat_beq_iff k n).0 q in omega arith))
      (λ q. h)

-- Closing any session keeps it all.
pub old_shut : (p : Phase) (n w : ℕ) (f : ℕ → Bool) → OldClosed p f w → OldClosed p (shut n f) w
old_shut idle n w f h = tt
old_shut (closing_old m) n w f h = h
old_shut dialing n w f h = shut-false n w f h
old_shut (dialled m) n w f h = shut-false n w f h
old_shut (assigning m) n w f h = shut-false n w f h
old_shut swapping n w f h = tt

pub shut-Inv : (c : Conn) (n : ℕ) → Inv c → Inv (record c { is_open = shut n c.is_open })
shut-Inv c n v = record {
  only = λ k h. v.only k (shut-true n k c.is_open h).1;
  old = old_shut c.phase n c.wire_conn c.is_open v.old;
  below = v.below;
  held_below = v.held_below;
  waiting = v.waiting;
  done = λ f. let (s, u, o) = v.done f in (s, u, shut-false n c.wire_conn c.is_open o);
}

-- A swap that leaves a closed status alone.
pub keeps_closed :
    (s : ConnStatus)
    → s ≡ conn_closed
    → (compare_and_swap_not s conn_closed conn_reconnecting).0 ≡ conn_closed
unfolding compare_and_swap_not swap
keeps_closed conn_closed e = refl
keeps_closed conn_connected e = absurd (cc)
keeps_closed conn_reconnecting e = absurd (cc)

pub keeps_closed_too :
    (s : ConnStatus)
    → s ≡ conn_closed
    → (compare_and_swap s conn_reconnecting conn_connected).0 ≡ conn_closed
unfolding compare_and_swap swap
keeps_closed_too conn_closed e = refl
keeps_closed_too conn_connected e = absurd (cc)
keeps_closed_too conn_reconnecting e = absurd (cc)
