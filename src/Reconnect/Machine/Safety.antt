-- ===== src/Reconnect/Machine/Safety.antt =====
-- The steps of the goroutines of a reconnecting transport, in any order, and what holds in all states that they
-- reach.
use iscp_go.Prelude.{
  if_cases, ℕ, ◌≡◌, ◌≢◌, refl, [], none, some, Bool, true, nat_eq, Bool-cases, inl, inr,
}
use iscp_go.Multi.Transports.{connected, reconnecting}
use iscp_go.Reconnect.Machine.{
  MaxAttempts, Reconnecting, dial, Attempted, connected_to, attempts_failed, closed_meanwhile,
  ReconnectResult, reconnect, settle, same_transport, store_initial, done_process, cancel,
  finish_close,
}

-- How far the goroutine of `initialConnect` is: before it stores, between storing and announcing, with what the
-- first led to, and after.
pub data Initial : Type 0 where
  dialling finished : Initial
  to_announce : Attempted → Initial

-- The transport, with this goroutine.
pub record State : Type 0 where
  pub machine : Reconnecting
  pub initial : Initial

-- The first two steps are those of `initialConnect`, in its order; the others come at any time.
pub data Step : State → State → Type 0 where
  storing :
      (is_closer : ℕ → Bool) (r : Reconnecting) (a : Attempted)
      → Step
          (record { machine = r; initial = dialling })
          (record {
            machine = (store_initial is_closer r a).0;
            initial = to_announce (store_initial is_closer r a).1;
          })
  announcing :
      (r : Reconnecting) (a : Attempted)
      → Step
          (record { machine = r; initial = to_announce a })
          (record { machine = done_process r a; initial = finished })
  reconnecting_step :
      (s : State) (old : ℕ) (a : Attempted)
      → Step s (record s { machine = (reconnect s.machine old a).0 })
  cancelling : (s : State) → Step s (record s { machine = cancel s.machine })
  closing : (s : State) → Step s (record s { machine = finish_close s.machine })

pub data Reach (start : State) : State → Type 0 where
  start_here : Reach start start
  then_step : {r s : State} → Reach start r → Step r s → Reach start s

-- What `Dial` makes, with the goroutine that it starts.
abbrev pub dialled : MaxAttempts → State
dialled max = record { machine = dial max; initial = dialling }

-- A status of connected is that of a transport that is there, and so is a reconnect that goes on.
abbrev pub IsHonest : Reconnecting → Type 0
IsHonest r = r.status ≡ connected → r.transport ≢ none

-- A transport is never taken away, nor a cancellation.
abbrev pub Keeps : Reconnecting → Reconnecting → Type 0
Keeps r s = (r.closed ≡ true → s.closed ≡ true) × (r.transport ≢ none → s.transport ≢ none)

some_present : (t : ℕ) → some t ≢ none
some_present t q = cc

-- What is announced is there: a transport, unless the attempts failed or the transport was closed.
abbrev IsStored : Reconnecting → Initial → Type 0
IsStored r dialling = Unit {0}
IsStored r finished = Unit {0}
IsStored r (to_announce attempts_failed) = Unit {0}
IsStored r (to_announce closed_meanwhile) = Unit {0}
IsStored r (to_announce (connected_to t)) = r.transport ≢ none

store-IsHonest :
    (is_closer : ℕ → Bool) (r : Reconnecting) (a : Attempted)
    → IsHonest r
    → IsHonest (store_initial is_closer r a).0
      × Keeps r (store_initial is_closer r a).0
      × IsStored (store_initial is_closer r a).0 (to_announce (store_initial is_closer r a).1)
unfolding store_initial
store-IsHonest is_closer r attempts_failed h = (h, (λ c. c, λ n. n), tt)
store-IsHonest is_closer r closed_meanwhile h = (h, (λ c. c, λ n. n), tt)
store-IsHonest is_closer r (connected_to t) h = elim (Bool-cases (is_closer t)) [
  | inr e ↦ rw e (h, (λ c. c, λ n. n), tt)
  | inl e ↦ elim (Bool-cases r.closed) [
    | inl c ↦ rw (e, c) (h, (λ c. c, λ n. n), tt)
    | inr c ↦ rw (e, c) (λ q. some_present t, (λ c. c, λ n. some_present t), some_present t)
  ]
]

done-IsHonest :
    (r : Reconnecting) (a : Attempted)
    → IsStored r (to_announce a)
    → IsHonest (done_process r a) × Keeps r (done_process r a)
unfolding done_process
done-IsHonest r (connected_to t) n = (λ q. n, (λ c. c, λ n. n))
done-IsHonest r attempts_failed n = (λ q. cc, (λ c. refl, λ n. n))
done-IsHonest r closed_meanwhile n = (λ q. cc, (λ c. refl, λ n. n))

kept-IsStored :
    (r s : Reconnecting) (i : Initial)
    → (r.transport ≢ none → s.transport ≢ none)
    → IsStored r i
    → IsStored s i
kept-IsStored r s dialling k h = tt
kept-IsStored r s finished k h = tt
kept-IsStored r s (to_announce attempts_failed) k h = tt
kept-IsStored r s (to_announce closed_meanwhile) k h = tt
kept-IsStored r s (to_announce (connected_to t)) k h = k h

reconnect-IsHonest :
    (r : Reconnecting) (old : ℕ) (a : Attempted)
    → IsHonest r
    → IsHonest (reconnect r old a).0 × Keeps r (reconnect r old a).0
unfolding reconnect
reconnect-IsHonest r old a h =
    if_cases Good r.closed (λ c. (h, (λ q. q, λ n. n)))
      (λ c.
        if_cases Good (same_transport r.transport old) (λ e. settled a)
          (λ e. (λ q. cc, (λ q. q, λ n. n))))
  where
    Good : Reconnecting × ReconnectResult → Type 0
    Good s = IsHonest s.0 × Keeps r s.0

    settled :
        (a : Attempted)
        → IsHonest
            (settle (record r { status = reconnecting; ping_seq = 0; pending_pongs = [] }) a).0
          × Keeps r
              (settle (record r { status = reconnecting; ping_seq = 0; pending_pongs = [] }) a).0
    settled (connected_to t) = (λ q. some_present t, (λ q. q, λ n. some_present t))
    settled attempts_failed = (λ q. cc, (λ q. q, λ n. n))
    settled closed_meanwhile = (λ q. cc, (λ q. q, λ n. n))

-- What `Dial` makes is honest.
dial-IsHonest : (max : MaxAttempts) → IsHonest (dial max)
unfolding dial
dial-IsHonest max q = cc

-- What holds of a state, and from one to a later one.
abbrev Good : State → State → Type 0
Good r s = IsHonest s.machine × Keeps r.machine s.machine × IsStored s.machine s.initial

Step-Good : {r s : State} → Step r s → IsHonest r.machine → IsStored r.machine r.initial → Good r s
Step-Good (storing is_closer r a) h i = store-IsHonest is_closer r a h
Step-Good (announcing r a) h i = let (f, k) = done-IsHonest r a i in (f, k, tt)
Step-Good (reconnecting_step s old a) h i =
    let (f, k) = reconnect-IsHonest s.machine old a h in
    (f, k, kept-IsStored s.machine (reconnect s.machine old a).0 s.initial k.1 i)
Step-Good (cancelling s) h i = (
  unfold cancel in h,
  unfold cancel in (λ c. refl, λ n. n),
  kept-IsStored s.machine (cancel s.machine) s.initial (unfold cancel in λ n. n) i,
)
Step-Good (closing s) h i = (
  unfold finish_close in (λ q. cc),
  unfold finish_close in (λ c. c, λ n. n),
  kept-IsStored s.machine (finish_close s.machine) s.initial (unfold finish_close in λ n. n) i,
)

Reach-Good : (max : MaxAttempts) {s : State} → Reach (dialled max) s → Good (dialled max) s
Reach-Good max start_here = (dial-IsHonest max, (λ c. c, λ n. n), tt)
Reach-Good max (then_step path step) =
    let (g, (kept, stays), i) = Reach-Good max path in
    let (f, (kept', stays'), j) = Step-Good step g i in
    (f, (λ c. kept' (kept c), λ n. stays' (stays n)), j)

-- Whatever steps of reconnecting and closing come before, between and after the two steps of the goroutine that
-- `Dial` starts: in every state reached from the one that `Dial` makes, and after any further step, a
-- status of connected is that of a transport that is there. That step leaves the context cancelled
-- once it is, and a transport there once one is.
pub Reach-IsHonest :
    (max : MaxAttempts) {r s : State}
    → Reach (dialled max) r
    → Step r s
    → IsHonest r.machine × IsHonest s.machine × Keeps r.machine s.machine
Reach-IsHonest max path step =
    let (g, _, i) = Reach-Good max path in let (f, k, _) = Step-Good step g i in (g, f, k)
