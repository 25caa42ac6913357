-- ===== src/Upstream/Sent.antt =====
-- The chunks that wait for their result.
use iscp_go.Prelude.{
  ℕ, ◌≡◌, refl, sym, ap, ◌∙◌, Option, none, some, Bool, false, ◌==◌, nat_eq, if◌then◌else◌, lookup,
  erase, lookup-erase, beq_refl,
}
use iscp_go.Upstream.Data.{DataPointGroups}
use iscp_go.Upstream.{Upstream, remove_sent, deliver_result, process_result}

abbrev pub sent_of : ℕ → Upstream → Option DataPointGroups
sent_of k u = lookup k u.sent_buf

deliver_result-sent :
    (o : Option Bool) (u : Upstream) (n : ℕ) → (deliver_result o u n).0.sent_buf ≡ u.sent_buf
unfolding deliver_result
deliver_result-sent none u n = refl
deliver_result-sent (some b) u n = refl

deliver_result-waiting :
    (o : Option Bool) (u : Upstream) (n : ℕ)
    → o ≡ lookup n u.waiting_results
    → lookup n (deliver_result o u n).0.waiting_results ≡ none
unfolding deliver_result
deliver_result-waiting none u n e = sym e
deliver_result-waiting (some b) u n e = rw (lookup-erase, beq_refl) refl

process_result-sent :
    (u : Upstream) (n k : ℕ)
    → sent_of k (process_result u n).0 ≡ (if n == k then none else sent_of k u)
unfolding process_result remove_sent
process_result-sent u n k =
    ap (λ m. lookup k m)
      (deliver_result-sent (lookup n u.waiting_results) (record u { sent_buf = erase n u.sent_buf })
        n)
    ∙ lookup-erase n k u.sent_buf

not_delivered :
    (o : Option Bool) (u : Upstream) (n : ℕ) → o ≡ none → (deliver_result o u n).1 ≡ false
unfolding deliver_result
not_delivered none u n e = refl
not_delivered (some b) u n e = cc

process_result-waiting :
    (u : Upstream) (n : ℕ) → lookup n (process_result u n).0.waiting_results ≡ none
unfolding process_result remove_sent
process_result-waiting u n =
    deliver_result-waiting (lookup n u.waiting_results) (record u { sent_buf = erase n u.sent_buf })
      n refl

-- A result takes the chunk with its number out of the sent buffer and leaves the others, whether or not
-- someone waits for it; and nobody waits for that number afterwards, so a second result with it is given
-- to nobody and no channel gets two.
pub process_result_lem :
    (u : Upstream) (n k : ℕ)
    → (sent_of k (process_result u n).0 ≡ (if n == k then none else sent_of k u))
      × ((process_result (process_result u n).0 n).1 ≡ false)
process_result_lem u n k = (
  process_result-sent u n k,
  unfold process_result in
      not_delivered _ (remove_sent (process_result u n).0 n) n (process_result-waiting u n),
)
