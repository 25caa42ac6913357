-- ===== src/Downstream/Reported.antt =====
-- Runs of reads and flushes: what all acknowledgements say together.
use iscp_go.Prelude.{◌≡◌, refl, sym, ap, subst, ◌∙◌, List, [], ◌∷◌, ◌++◌, Option, none, some}
use mathlib.Core.List.{append_assoc, append-nil}
use iscp_go.Downstream.{ChunkResult, ChunkAck, Downstream, flush_ack}
use iscp_go.Downstream.Run.{Event, reads, flushes, happens, sent_of, run}
use iscp_go.Downstream.Acks.{
  reports_at, reports, all_results, Numbered, Flushed, read_reports, flush-Flushed,
}

module _ {Uuid : Type 0} where
  all_results-append :
      (acks more : List (ChunkAck Uuid))
      → all_results (acks ++ more) ≡ all_results acks ++ all_results more
  unfolding all_results
  all_results-append [] more = refl
  all_results-append (ack ∷ acks) more =
      ap (λ x. ack.results ++ x) (all_results-append acks more)
      ∙ sym (append_assoc ack.results (all_results acks) (all_results more))

  -- One call: what it sends and keeps, and the numbers that may follow it.
  abbrev pub Reported :
      Downstream Uuid → Downstream Uuid × List (ChunkAck Uuid) → List (ChunkResult Uuid) → Type 0
  Reported d (e, sent) new =
      (all_results sent ++ e.result_ack_buffer ≡ d.result_ack_buffer ++ new)
      × ((later : List (ChunkAck Uuid))
          → Numbered e.chunk_ack_id_sequence.current later
          → Numbered d.chunk_ack_id_sequence.current (sent ++ later))

  flush-Reported :
      (d : Downstream Uuid) (r : Downstream Uuid × Option (ChunkAck Uuid))
      → Flushed d r
      → Reported d (r.0, sent_of r.1) []
  unfolding all_results
  flush-Reported d (e, none) (b, s) = (
    b ∙ sym (append-nil d.result_ack_buffer),
    λ later h. subst (λ q. Numbered q.current later) s h,
  )
  flush-Reported d (e, some ack) (r, b, i, s, n) = (
    ap (λ x. (ack.results ++ []) ++ x) b
        ∙ append-nil (ack.results ++ [])
        ∙ append-nil ack.results
        ∙ r
        ∙ sym (append-nil d.result_ack_buffer),
    λ later h. (i, n, subst (λ q. Numbered q later) s h),
  )

  step-Reported : (d : Downstream Uuid) (e : Event Uuid) → Reported d (happens d e) (reports_at d e)
  unfolding all_results
  step-Reported d (reads dps) =
      let (b, s) = read_reports d dps in (b, λ later h. subst (λ q. Numbered q.current later) s h)
  step-Reported d flushes = flush-Reported d (flush_ack d) (flush-Flushed d)

  then_Reported :
      (d e f : Downstream Uuid) (sent more : List (ChunkAck Uuid))
      (new newer : List (ChunkResult Uuid))
      → Reported d (e, sent) new
      → Reported e (f, more) newer
      → Reported d (f, sent ++ more) (new ++ newer)
  then_Reported d e f sent more new newer (b, n) (c, m) = (
    ap (λ x. x ++ f.result_ack_buffer) (all_results-append sent more)
        ∙ append_assoc (all_results sent) (all_results more) f.result_ack_buffer
        ∙ ap (λ x. all_results sent ++ x) c
        ∙ sym (append_assoc (all_results sent) e.result_ack_buffer newer)
        ∙ ap (λ x. x ++ newer) b
        ∙ append_assoc d.result_ack_buffer new newer,
    λ later h.
        subst (λ xs. Numbered d.chunk_ack_id_sequence.current xs)
          (sym (append_assoc sent more later)) (n (more ++ later) (m later h)),
  )

  run-Reported :
      (d : Downstream Uuid) (es : List (Event Uuid)) → Reported d (run d es) (reports d es)
  unfolding run reports all_results
  run-Reported d [] = (sym (append-nil d.result_ack_buffer), λ later h. h)
  run-Reported d (e ∷ es) =
      then_Reported d (happens d e).0 (run (happens d e).0 es).0 (happens d e).1
        (run (happens d e).0 es).1 (reports_at d e) (reports (happens d e).0 es) (step-Reported d e)
        (run-Reported (happens d e).0 es)

  -- In any sequence of reads and flushes, the results in the acknowledgements that are sent, followed by those that
  -- wait, are those that waited at the start followed by one for each read that gives the caller a chunk, in
  -- the order of the reads; the acknowledgements have consecutive numbers modulo 2 ^ 32, and none is empty.
  pub acks_report :
      (d : Downstream Uuid) (es : List (Event Uuid))
      → (all_results (run d es).1 ++ (run d es).0.result_ack_buffer
          ≡ d.result_ack_buffer ++ reports d es)
        × Numbered d.chunk_ack_id_sequence.current (run d es).1
  acks_report d es =
      let (r, n) = run-Reported d es in
      (
        r,
        subst (λ xs. Numbered d.chunk_ack_id_sequence.current xs) (append-nil (run d es).1)
            (n [] tt),
      )
