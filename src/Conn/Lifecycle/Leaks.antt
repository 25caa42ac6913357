-- ===== src/Conn/Lifecycle/Leaks.antt =====
-- No session outlives a connection that was closed, and a closed connection stays closed.
use iscp_go.Prelude.{
  ℕ, zero, suc, ◌≡◌, refl, sym, ap, subst, inl, inr, List, [], ◌∷◌, Bool, true, false, nat_eq,
  arith,
}
use iscp_go.Status.{conn_status_eq, conn_closed, swap}
use iscp_go.Conn.Lifecycle.{
  Phase, idle, closing_old, dialing, dialled, assigning, swapping, Conn, new_conn, Event,
  reconnect_begins, old_closed, dial_succeeds, gives_up, checked, assigned, swapped, close_begins,
  close_ends, send_fails, session_ends, begin_close, close_wire, end_close, fail_send, happens, run,
}
use iscp_go.Conn.Lifecycle.Sessions.{
  old_shut, Held, Unlocked, Inv, shut-true, shut_same, opened-true, shut-Inv, keeps_closed,
}
use iscp_go.Conn.Lifecycle.Reconnecting.{
  begin-Inv, old-Inv, dial-Inv, give_up-Inv, check-Inv, assign-Inv, finish-Inv,
}

close_wire-Inv :
    (n : ℕ) (c : Conn) → c.closes_waiting ≡ n → Unlocked c.phase → Inv c → Inv (close_wire n c)
unfolding close_wire
close_wire-Inv zero c e u v = v
close_wire-Inv (suc k) c e u v =
    let closed = v.waiting (λ z. omega (arith, e, z)) in
    record {
      only = λ j q. v.only j (shut-true c.wire_conn j c.is_open q).1;
      old = old_shut c.phase c.wire_conn c.wire_conn c.is_open v.old;
      below = v.below;
      held_below = v.held_below;
      waiting = λ w. closed;
      done = λ f. (closed, u, shut_same c.wire_conn c.wire_conn c.is_open refl);
    }

end-Inv : (p : Phase) (c : Conn) → c.phase ≡ p → Inv c → Inv (end_close p c)
unfolding end_close
end-Inv (assigning n) c e v = v
end-Inv swapping c e v = v
end-Inv idle c e v = close_wire-Inv c.closes_waiting c refl (subst Unlocked (sym e) tt) v
end-Inv (closing_old n) c e v = close_wire-Inv c.closes_waiting c refl (subst Unlocked (sym e) tt) v
end-Inv dialing c e v = close_wire-Inv c.closes_waiting c refl (subst Unlocked (sym e) tt) v
end-Inv (dialled n) c e v = close_wire-Inv c.closes_waiting c refl (subst Unlocked (sym e) tt) v

begin_close-Inv : (c : Conn) → Inv c → Inv (begin_close c)
unfolding begin_close swap
begin_close-Inv c v = record {
  only = v.only;
  old = v.old;
  below = v.below;
  held_below = v.held_below;
  waiting = λ w. refl;
  done = λ f. (refl, (v.done f).1, (v.done f).2);
}

send-Inv : (c : Conn) → Inv c → Inv (fail_send c)
unfolding fail_send
send-Inv c v = record {
  only = v.only;
  old = v.old;
  below = v.below;
  held_below = v.held_below;
  waiting = λ w. keeps_closed c.state (v.waiting w);
  done = λ f. (keeps_closed c.state (v.done f).0, (v.done f).1, (v.done f).2);
}

step-Inv : (c : Conn) (e : Event) → Inv c → Inv (happens c e)
step-Inv c reconnect_begins v = begin-Inv c.phase c v v
step-Inv c old_closed v = old-Inv c.phase c v v
step-Inv c dial_succeeds v = dial-Inv c.phase c v v
step-Inv c gives_up v = give_up-Inv c.phase c v v
step-Inv c checked v = check-Inv c.phase c v v
step-Inv c assigned v = assign-Inv c.phase c v v
step-Inv c swapped v = finish-Inv c.phase c v v
step-Inv c close_begins v = begin_close-Inv c v
step-Inv c close_ends v = end-Inv c.phase c refl v
step-Inv c send_fails v = send-Inv c v
step-Inv c (session_ends n) v = shut-Inv c n v

run-Inv : (c : Conn) (es : List Event) → Inv c → Inv (run c es)
unfolding run
run-Inv c [] v = v
run-Inv c (e ∷ es) v = run-Inv (happens c e) es (step-Inv c e v)

new-Inv : Inv new_conn
unfolding new_conn
new-Inv = record {
  only = λ n h. elim (opened-true 0 n (λ k. false) h) [ inl e ↦ inl e | inr e ↦ absurd (cc) ];
  old = tt;
  below = omega arith;
  held_below = λ n k. elim k [ ];
  waiting = λ w. absurd (w refl);
  done = λ f. absurd (cc);
}

not_true : (b : Bool) → (b ≡ true → ⊥) → b ≡ false
not_true true h = absurd (h refl)
not_true false h = refl

-- However a reconnection, calls of `Close`, sends that fail and sessions that end are interleaved: once a `Close`
-- has done its part under the mutex, the status is closed, and when no reconnection goes on no session is
-- open, so that none that a reconnection dialled meanwhile is left behind.
pub no_session_leaks :
    (es : List Event)
    → (run new_conn es).finished ≡ true
    → ((run new_conn es).state ≡ conn_closed)
      × ((run new_conn es).phase ≡ idle → (n : ℕ) → (run new_conn es).is_open n ≡ false)
no_session_leaks es f =
    let v = run-Inv new_conn es new-Inv in
    let (closed, unlocked, gone) = v.done f in
    (
      closed,
      λ e n. not_true ((run new_conn es).is_open n) (λ h. elim (v.only n h) [
        | inl p ↦ let q = ap (run new_conn es).is_open p in cc
        | inr k ↦ subst (λ p. Held p n) e k
      ]),
    )
