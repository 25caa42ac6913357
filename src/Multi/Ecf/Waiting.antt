-- ===== src/Multi/Ecf/Waiting.antt =====
-- The two inequalities without the queue, which the program leaves empty.
use native.Mathlib.Nat.{
  mod-eq_of_lt, mul-lt-mul_of_pos_left, mul-le-mul_left, mul-le-mul_right, mul_comm,
}
use iscp_go.Prelude.{
  subst, ℕ, ◌+◌, ◌*◌, ◌≤◌, ◌<◌, ◌≡◌, sym, ap, ◌∙◌, Bool, true, false, not, arith, ltb, leb, max,
  if◌then◌else◌, ltb→lt, ltb→le, lt→ltb, Bool-cases, inl, inr,
}
use iscp_go.Multi.Stats.{u64}
use iscp_go.Multi.Ecf.{EcfMetrics, ecf_beta, first_inequality, second_inequality}

-- Round-trip times below some eighteen minutes, windows below one gibibyte.
pub record IsModest (m : EcfMetrics) : Type 0 where
  pub rtt_small : m.rtt < 1073741824
  pub rttvar_small : m.rttvar < 1073741824
  pub cwnd_small : m.cwnd < 1073741824
  pub cwnd_positive : 0 < m.cwnd

mul_bound : (x y a b : ℕ) → x ≤ a → y ≤ b → x * y ≤ a * b
mul_bound x y a b h k =
    let p : x * y ≤ a * y = mul-le-mul_right y h in
    let q : a * y ≤ a * b = mul-le-mul_left a k in omega arith

cancel_lt : (c x y : ℕ) → 0 < c → ltb (c * x) (c * y) ≡ ltb x y
cancel_lt c x y h = elim (Bool-cases (ltb x y)) [
  | inl e ↦ rw e (lt→ltb (c * x) (c * y) (mul-lt-mul_of_pos_left (ltb→lt x y e) h))
  | inr e ↦ rw e (le→ltb (c * x) (c * y) (mul-le-mul_left c (ltb→le x y e)))
]
  where
    le→ltb : (a b : ℕ) → b ≤ a → ltb a b ≡ false
    le→ltb a b h = ground arith

leb-ltb : (a b : ℕ) → leb a b ≡ not (ltb b a)
leb-ltb a b = ground arith

cancel_le : (c x y : ℕ) → 0 < c → leb (c * x) (c * y) ≡ leb x y
cancel_le c x y h = leb-ltb (c * x) (c * y) ∙ ap not (cancel_lt c y x h) ∙ sym (leb-ltb x y)

small : (n : ℕ) → n < 18446744073709551616 → u64 n ≡ n
small n h = mod-eq_of_lt h

zero_max : (n : ℕ) → max 0 n ≡ n
zero_max n = omega arith

second_numbers :
    (c r d a : ℕ)
    → 0 < c
    → c < 1073741824
    → r < 1073741824
    → d < 1073741824
    → a < 1073741824
    → leb (u64 (c * u64 (u64 (2 * r) + d))) (u64 (a * max 0 c)) ≡ leb (2 * r + d) a
second_numbers c r d a p hc hr hd ha =
    let left = mul_bound c (2 * r + d) 1073741823 3221225469 (omega arith) (omega arith) in
    let right = mul_bound c a 1073741823 1073741823 (omega arith) (omega arith) in
    rw
      (
        small (2 * r) (omega arith),
        small (2 * r + d) (omega arith),
        zero_max c,
        mul_comm a c,
        small (c * (2 * r + d)) (omega arith),
        small (c * a) (omega arith),
      )
      (cancel_le c (2 * r + d) a p)

twice : (c r : ℕ) → r * (c + c) ≡ c * (2 * r)
twice c r = omega arith

factor : (c k x : ℕ) → c * (k * x) ≡ k * (c * x)
factor c k x = grind arith

spread_zero : (c x : ℕ) → c * (4 * x + 0) ≡ 4 * (c * x) + 0
spread_zero c x = omega arith

spread : (c x y : ℕ) → c * (4 * x + y) ≡ 4 * (c * x) + c * y
spread c x y = omega arith

first_numbers :
    (waiting : Bool) (c r d a : ℕ)
    → 0 < c
    → c < 1073741824
    → r < 1073741824
    → d < 1073741824
    → a < 1073741824
    → let rhs = u64 (c * u64 (a + d)) in
      ltb
        (u64 (ecf_beta * u64 (r * u64 (max 0 c + c))))
        (u64 (u64 (ecf_beta * rhs) + (if waiting then rhs else 0)))
      ≡ ltb (ecf_beta * (2 * r)) (ecf_beta * (a + d) + (if waiting then a + d else 0))
first_numbers false c r d a p hc hr hd ha =
    let left = mul_bound c (2 * r) 1073741823 2147483646 (omega arith) (omega arith) in
    let right = mul_bound c (a + d) 1073741823 2147483646 (omega arith) (omega arith) in
    rw
      (
        zero_max c,
        small (c + c) (omega arith),
        twice c r,
        small (a + d) (omega arith),
        small (c * (2 * r)) (omega arith),
        small (c * (a + d)) (omega arith),
        small (4 * (c * (2 * r))) (omega arith),
        small (4 * (c * (a + d))) (omega arith),
        small (4 * (c * (a + d)) + 0) (omega arith),
      )
      (subst (λ n. ltb (4 * (c * (2 * r))) n ≡ ltb (4 * (2 * r)) (4 * (a + d) + 0))
        (spread_zero c (a + d))
        (subst (λ m. ltb m (c * (4 * (a + d) + 0)) ≡ ltb (4 * (2 * r)) (4 * (a + d) + 0))
          (factor c 4 (2 * r)) (cancel_lt c (4 * (2 * r)) ((4 * (a + d) + 0)) p)))
first_numbers true c r d a p hc hr hd ha =
    let left = mul_bound c (2 * r) 1073741823 2147483646 (omega arith) (omega arith) in
    let right = mul_bound c (a + d) 1073741823 2147483646 (omega arith) (omega arith) in
    rw
      (
        zero_max c,
        small (c + c) (omega arith),
        twice c r,
        small (a + d) (omega arith),
        small (c * (2 * r)) (omega arith),
        small (c * (a + d)) (omega arith),
        small (4 * (c * (2 * r))) (omega arith),
        small (4 * (c * (a + d))) (omega arith),
        small (4 * (c * (a + d)) + c * (a + d)) (omega arith),
      )
      (subst (λ n. ltb (4 * (c * (2 * r))) n ≡ ltb (4 * (2 * r)) (4 * (a + d) + (a + d)))
        (spread c (a + d) (a + d))
        (subst
          (λ m. ltb m (c * (4 * (a + d) + (a + d))) ≡ ltb (4 * (2 * r)) (4 * (a + d) + (a + d)))
          (factor c 4 (2 * r)) (cancel_lt c (4 * (2 * r)) ((4 * (a + d) + (a + d))) p)))

-- With an empty queue a waiting
pub second_inequality_empty :
    (f a : EcfMetrics)
    → IsModest f
    → IsModest a
    → second_inequality 0 f a ≡ leb (2 * f.rtt + max f.rttvar a.rttvar) a.rtt
unfolding second_inequality
second_inequality_empty f a hf ha =
    second_numbers a.cwnd f.rtt (max f.rttvar a.rttvar) a.rtt ha.cwnd_positive ha.cwnd_small
      hf.rtt_small (omega arith) ha.rtt_small

-- With an empty queue, and numbers in these ranges, nothing wraps and the windows drop out of both
-- inequalities. The first compares eight round-trip times of the fastest transport with four times the sum
-- of the round-trip time of the other and the larger deviation, or with five times that sum while the
-- selector waits. The second compares two round-trip times of the fastest and the larger deviation with the
-- round-trip time of the other.
pub inequalities_without_queue :
    (waiting : Bool) (f a : EcfMetrics)
    → IsModest f
    → IsModest a
    → (first_inequality waiting 0 f a
        ≡ ltb (4 * (2 * f.rtt)) (
            4 * (a.rtt + max f.rttvar a.rttvar)
            + (if waiting then a.rtt + max f.rttvar a.rttvar else 0)))
      × (second_inequality 0 f a ≡ leb (2 * f.rtt + max f.rttvar a.rttvar) a.rtt)
unfolding first_inequality
inequalities_without_queue waiting f a hf ha = (
  first_numbers waiting f.cwnd f.rtt (max f.rttvar a.rttvar) a.rtt hf.cwnd_positive hf.cwnd_small
      hf.rtt_small (omega arith) ha.rtt_small,
  second_inequality_empty f a hf ha,
)
