-- ===== src/Conn/Lifecycle/Reconnecting.antt =====
-- The stretches of a reconnection keep account of the sessions.
use iscp_go.Prelude.{◌≢◌, refl, sym, ap, inl, inr, ◌==◌, nat_eq, arith, if_cases, Bool-cases}
use iscp_go.Status.{
  conn_status_eq, same_conn_iff, conn_reconnecting, conn_closed, swap, compare_and_swap_not,
}
use iscp_go.Conn.Lifecycle.{
  Phase, idle, closing_old, dialing, dialled, assigning, swapping, Conn, begin_reconnect, close_old,
  dial_wire, give_up, check_closed, assign_wire, finish_reconnect,
}
use iscp_go.Conn.Lifecycle.Sessions.{
  InvAt, Inv, shut-true, shut-false, shut_same, opened-true, opened-false, keeps_closed_too,
}

pub begin-Inv : (p : Phase) (c : Conn) → InvAt p c → Inv c → Inv (begin_reconnect p c)
unfolding begin_reconnect compare_and_swap_not swap
begin-Inv (closing_old n) c h v = v
begin-Inv dialing c h v = v
begin-Inv (dialled n) c h v = v
begin-Inv (assigning n) c h v = v
begin-Inv swapping c h v = v
begin-Inv idle c h v = elim (Bool-cases (c.state == conn_closed)) [
  | inl q ↦ rw q v
  | inr q ↦ rw q (started (λ e. let r = (same_conn_iff c.state conn_closed).1 e in cc))
]
  where
    started :
        c.state ≢ conn_closed
        → Inv (record c { state = conn_reconnecting; phase = closing_old c.wire_conn })
    started open_yet = record {
      only = h.only;
      old = refl;
      below = h.below;
      held_below = λ n k. elim k [ ];
      waiting = λ w. absurd (open_yet (h.waiting w));
      done = λ f. absurd (open_yet (h.done f).0);
    }

pub old-Inv : (p : Phase) (c : Conn) → InvAt p c → Inv c → Inv (close_old p c)
unfolding close_old
old-Inv idle c h v = v
old-Inv dialing c h v = v
old-Inv (dialled n) c h v = v
old-Inv (assigning n) c h v = v
old-Inv swapping c h v = v
old-Inv (closing_old m) c h v = record {
  only = λ k q. h.only k (shut-true m k c.is_open q).1;
  old = shut_same m c.wire_conn c.is_open (sym h.old);
  below = h.below;
  held_below = h.held_below;
  waiting = h.waiting;
  done = λ f. let (s, u, o) = h.done f in (s, u, shut_same m c.wire_conn c.is_open (sym h.old));
}

pub dial-Inv : (p : Phase) (c : Conn) → InvAt p c → Inv c → Inv (dial_wire p c)
unfolding dial_wire
dial-Inv idle c h v = v
dial-Inv (closing_old n) c h v = v
dial-Inv (dialled n) c h v = v
dial-Inv (assigning n) c h v = v
dial-Inv swapping c h v = v
dial-Inv dialing c h v = record {
  only = λ k q. elim (opened-true c.dials k c.is_open q) [
    | inl e ↦ inr e
    | inr o ↦ elim (h.only k o) [ inl e ↦ inl e | inr z ↦ elim z [ ] ]
  ];
  old = opened-false c.dials c.wire_conn c.is_open h.below h.old;
  below = let b = h.below in omega arith;
  held_below = λ n k. omega (arith, k);
  waiting = h.waiting;
  done = λ f.
      let (s, u, o) = h.done f in (s, u, opened-false c.dials c.wire_conn c.is_open h.below h.old);
}

pub give_up-Inv : (p : Phase) (c : Conn) → InvAt p c → Inv c → Inv (give_up p c)
unfolding give_up
give_up-Inv idle c h v = v
give_up-Inv (closing_old n) c h v = v
give_up-Inv (dialled n) c h v = v
give_up-Inv (assigning n) c h v = v
give_up-Inv swapping c h v = v
give_up-Inv dialing c h v = record {
  only = h.only;
  old = tt;
  below = h.below;
  held_below = h.held_below;
  waiting = h.waiting;
  done = h.done;
}

pub check-Inv : (p : Phase) (c : Conn) → InvAt p c → Inv c → Inv (check_closed p c)
unfolding check_closed
check-Inv idle c h v = v
check-Inv (closing_old n) c h v = v
check-Inv dialing c h v = v
check-Inv (assigning n) c h v = v
check-Inv swapping c h v = v
check-Inv (dialled res) c h v =
    if_cases Inv (c.state == conn_closed)
      (λ q. record {
        only = λ k o.
            let (apart, was) = shut-true res k c.is_open o in
            elim (h.only k was) [ inl e ↦ inl e | inr e ↦ absurd (apart e) ];
        old = tt;
        below = h.below;
        held_below = λ n k. elim k [ ];
        waiting = h.waiting;
        done = λ f. let (s, u, o) = h.done f in (s, tt, shut-false res c.wire_conn c.is_open h.old);
      })
      (λ q. record {
        only = h.only;
        old = h.old;
        below = h.below;
        held_below = h.held_below;
        waiting = h.waiting;
        done = λ f.
            let s = (h.done f).0 in let r = (same_conn_iff c.state conn_closed).1 s in absurd (cc);
      })

pub assign-Inv : (p : Phase) (c : Conn) → InvAt p c → Inv c → Inv (assign_wire p c)
unfolding assign_wire
assign-Inv idle c h v = v
assign-Inv (closing_old n) c h v = v
assign-Inv dialing c h v = v
assign-Inv (dialled n) c h v = v
assign-Inv swapping c h v = v
assign-Inv (assigning res) c h v = record {
  only = λ k o. elim (h.only k o) [
    | inl e ↦ absurd (let q = ap c.is_open e in let old = h.old in cc)
    | inr e ↦ inl e
  ];
  old = tt;
  below = h.held_below res refl;
  held_below = λ n k. elim k [ ];
  waiting = h.waiting;
  done = λ f. elim (h.done f).1 [ ];
}

pub finish-Inv : (p : Phase) (c : Conn) → InvAt p c → Inv c → Inv (finish_reconnect p c)
unfolding finish_reconnect
finish-Inv idle c h v = v
finish-Inv (closing_old n) c h v = v
finish-Inv dialing c h v = v
finish-Inv (dialled n) c h v = v
finish-Inv (assigning n) c h v = v
finish-Inv swapping c h v = record {
  only = h.only;
  old = tt;
  below = h.below;
  held_below = h.held_below;
  waiting = λ w. keeps_closed_too c.state (h.waiting w);
  done = λ f. elim (h.done f).1 [ ];
}
