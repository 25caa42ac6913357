-- ===== src/Reconnect/Pongs.antt =====
-- The pings of transport/reconnect/transport.go: a sequence number for each, and the times at which those
-- without a pong were sent. How round-trip times are smoothed, a floating-point formula, is an argument.
use iscp_go.Prelude.{
  ℕ, ◌+◌, ◌-◌, ◌%◌, ◌≡◌, refl, sym, ap, ◌∙◌, List, Option, none, some, Bool, ◌==◌, nat_eq,
  if◌then◌else◌, lookup, insert, erase, lookup-erase, lookup-insert, beq_refl,
}
use iscp_go.Reconnect.Control.{ping, marshal_binary}
use iscp_go.Reconnect.Machine.{Reconnecting}

-- A tick of `pingLoop`: the message that it writes.
unfoldable pub send_ping : Reconnecting → ℕ → Reconnecting × List ℕ
send_ping r now =
    let seq = (r.ping_seq + 1) % 4294967296 in
    (
      record r { ping_seq = seq; pending_pongs = insert seq now r.pending_pongs },
      marshal_binary (ping seq),
    )

module _ (smooth : ℕ → ℕ → ℕ) where
  unfoldable pub pong_for : Option ℕ → Reconnecting → ℕ → ℕ → Reconnecting
  pong_for none r now seq = r
  pong_for (some send_time) r now seq = record r {
    pending_pongs = erase seq r.pending_pongs;
    app_rtt = (if r.app_rtt == 0 then now - send_time else smooth r.app_rtt (now - send_time));
  }

  -- `handlePongReceived`
  unfoldable pub handle_pong_received : Reconnecting → ℕ → ℕ → Reconnecting
  unfolding pong_for
  handle_pong_received r now seq = pong_for (lookup seq r.pending_pongs) r now seq

  answered :
      (o : Option ℕ) (r : Reconnecting) (now seq : ℕ)
      → o ≡ lookup seq r.pending_pongs
      → lookup seq (pong_for o r now seq).pending_pongs ≡ none
  unfolding pong_for
  answered none r now seq e = sym e
  answered (some t) r now seq e =
      lookup-erase seq seq r.pending_pongs
      ∙ ap (λ (b : Bool). if b then none else lookup seq r.pending_pongs) (beq_refl seq)

  -- A pong counts once: after it, a further pong with its number changes nothing, at whatever time it comes.
  pub pong_once :
      (r : Reconnecting) (now later seq : ℕ)
      → handle_pong_received (handle_pong_received r now seq) later seq
        ≡ handle_pong_received r now seq
  unfolding handle_pong_received
  pong_once r now later seq =
      ap (λ o. pong_for o (pong_for (lookup seq r.pending_pongs) r now seq) later seq)
        (answered (lookup seq r.pending_pongs) r now seq refl)

  -- The pong that answers the ping just sent measures the time between them, where nothing was measured before.
  pub pong-ping :
      (r : Reconnecting) (now later : ℕ)
      → r.app_rtt ≡ 0
      → (handle_pong_received (send_ping r now).0 later ((r.ping_seq + 1) % 4294967296)).app_rtt
        ≡ later - now
  unfolding handle_pong_received send_ping pong_for
  pong-ping r now later e =
      let seq = (r.ping_seq + 1) % 4294967296 in
      let pinged = (send_ping r now).0 in
      ap (λ o. (pong_for o pinged later seq).app_rtt)
        (lookup-insert seq seq now r.pending_pongs
          ∙ ap (λ (b : Bool). if b then some now else lookup seq r.pending_pongs) (beq_refl seq))
      ∙ ap (λ (n : ℕ). if n == 0 then later - now else smooth n (later - now)) e
