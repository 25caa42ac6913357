-- ===== src/Wire/Requests/Answered.antt =====
-- A reply finds its caller.
use iscp_go.Prelude.{
  ℕ, suc, ◌+◌, ◌*◌, ◌<◌, ◌≤◌, ◌≡◌, ◌≢◌, refl, ap, ◌∙◌, List, [], ◌∷◌, Option, none, some, Bool,
  true, false, arith, ◌==◌, nat_eq, if◌then◌else◌, lookup, lookup-insert, lookup-erase, nat_beq_iff,
  ◌-◌,
}
use iscp_go.Ids.{next_id, u32}
use iscp_go.Wire.Requests.{
  Requests, new_requests, send_request, reply_to, read_request, Event, sends, reply, run,
}
use iscp_go.Wire.Requests.Correlation.{id_of, Inv, step-Inv, send-Inv, run-Inv, new-Inv}

abbrev pub sends_in : List Event → ℕ
sends_in [] = 0
sends_in (sends ∷ es) = suc (sends_in es)
sends_in (reply id ∷ es) = sends_in es

abbrev pub NoReplyTo : ℕ → List Event → Type 0
NoReplyTo id [] = Unit {0}
NoReplyTo id (sends ∷ es) = NoReplyTo id es
NoReplyTo id (reply k ∷ es) = (k ≢ id) × NoReplyTo id es

unequal : (a b : ℕ) → a ≢ b → (a == b) ≡ false
unequal a b n = ground arith

send-keeps :
    (r : Requests) (n : ℕ)
    → r.id_generator.current_value ≡ u32 (2 * r.calls)
    → n < r.calls
    → r.calls < n + 2147483648
    → lookup (id_of n) (send_request r).reply_ch ≡ lookup (id_of n) r.reply_ch
unfolding send_request next_id
send-keeps r n e l m =
    lookup-insert _ (id_of n) r.calls r.reply_ch
    ∙ ap (λ (b : Bool). if b then some r.calls else lookup (id_of n) r.reply_ch)
        (unequal _ (id_of n) (omega (arith, e)))

reply-keeps :
    (o : Option ℕ) (r : Requests) (k n : ℕ)
    → k ≢ id_of n
    → lookup (id_of n) (reply_to o r k).reply_ch ≡ lookup (id_of n) r.reply_ch
unfolding reply_to
reply-keeps none r k n h = refl
reply-keeps (some c) r k n h =
    lookup-erase k (id_of n) r.reply_ch
    ∙ ap (λ (b : Bool). if b then none else lookup (id_of n) r.reply_ch) (unequal k (id_of n) h)

reply-calls : (o : Option ℕ) (r : Requests) (k : ℕ) → (reply_to o r k).calls ≡ r.calls
unfolding reply_to
reply-calls none r k = refl
reply-calls (some c) r k = refl

run-keeps :
    (r : Requests) (n : ℕ) (es : List Event)
    → Inv r
    → n < r.calls
    → r.calls + sends_in es ≤ n + 2147483648
    → NoReplyTo (id_of n) es
    → lookup (id_of n) (run r es).reply_ch ≡ lookup (id_of n) r.reply_ch
unfolding run
run-keeps r n [] v l m h = refl
run-keeps r n (sends ∷ es) v l m h =
    run-keeps (send_request r) n es (send-Inv r v) (unfold send_request in omega arith)
      (unfold send_request in omega arith) h
    ∙ send-keeps r n v.counts l (omega arith)
run-keeps r n (reply k ∷ es) v l m h =
    let same = reply-calls (lookup k r.reply_ch) r k in
    run-keeps (read_request r k) n es (step-Inv r (reply k) v)
      (unfold read_request in omega (arith, same)) (unfold read_request in omega (arith, same)) h.1
    ∙ (unfold read_request in reply-keeps (lookup k r.reply_ch) r k n h.0)

send-enters :
    (r : Requests)
    → r.id_generator.current_value ≡ u32 (2 * r.calls)
    → lookup (id_of r.calls) (send_request r).reply_ch ≡ some r.calls
unfolding send_request next_id
send-enters r e =
    lookup-insert _ (id_of r.calls) r.calls r.reply_ch
    ∙ ap (λ (b : Bool). if b then some r.calls else lookup (id_of r.calls) r.reply_ch) (same e)
  where
    same :
        r.id_generator.current_value ≡ u32 (2 * r.calls)
        → (u32 (u32 (r.id_generator.current_value + 2) + 4294967296 - 2) == id_of r.calls) ≡ true
    same e = (nat_beq_iff _ (id_of r.calls)).1 (omega (arith, e))

-- The reply to a request that was sent after any events, and to which no reply came before, is delivered to its
-- caller, whatever other calls and replies came in between, as long as these calls are fewer than
-- 2 ^ 31.
pub reply_arrives :
    (es later : List Event)
    → suc (sends_in later) ≤ 2147483648
    → NoReplyTo (id_of (run new_requests es).calls) later
    → (read_request
        (run (send_request (run new_requests es)) later)
        (id_of (run new_requests es).calls)).delivered
      ≡ ((run new_requests es).calls, id_of (run new_requests es).calls)
        ∷ (run (send_request (run new_requests es)) later).delivered
unfolding read_request reply_to
reply_arrives es later few quiet =
    let r = run new_requests es in
    let v = run-Inv new_requests es new-Inv in
    let found =
      run-keeps (send_request r) r.calls later (send-Inv r v) (unfold send_request in omega arith)
        (unfold send_request in omega arith) quiet
      ∙ send-enters r v.counts in
    ap (λ o. (reply_to o (run (send_request r) later) (id_of r.calls)).delivered) found
