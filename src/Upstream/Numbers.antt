-- ===== src/Upstream/Numbers.antt =====
-- The sequence numbers of the chunks and the total of an upstream.
use iscp_go.Prelude.{
  ℕ, zero, suc, ◌+◌, ◌<◌, ◌≡◌, refl, sym, ap, subst, ◌∙◌, List, [], ◌∷◌, ◌++◌, Option, none, some,
  Bool, arith, nat_eq, length, length-append, Map, lookup, range_from,
}
use iscp_go.Ids.{next_sequence}
use iscp_go.Upstream.Data.{DataId, data_id_eq, DataPoints, DataPointGroup}
use iscp_go.Upstream.{
  Upstream, Chunk, MessageChunk, write_group, groups_of, flush, flush_valid,
  process_data_id_aliases, process_result, keep_alias, deliver_result, remove_sent,
}
use iscp_go.Upstream.Run.{
  Step, write_step, flush_step, result_step, aliases_step, chunks_of, step, run,
}
use iscp_go.Upstream.Flush.{flush_cases}
use iscp_go.Upstream.Messages.{messages_of, messages_in, messages}
use iscp_go.Upstream.Counters.{
  buffer_points, group_points_count, chunks_points, written_points, IsSound, write_points,
  write-IsSound, valid_state, valid-IsSound, keep_alias-IsSound,
}

-- The sequence numbers of chunks.
unfoldable pub numbers_of : List Chunk → List ℕ
numbers_of [] = []
numbers_of (c ∷ cs) = c.number ∷ numbers_of cs

-- From one state to another, with the chunks sent and the number of points written on the way.
pub record Advances (u : Upstream) (u' : Upstream) (chunks : List Chunk) (n : ℕ) : Type 0 where
  pub current : u'.sequence.current ≡ u.sequence.current + length chunks
  pub numbers : numbers_of chunks ≡ range_from (u.sequence.current + 1) (length chunks)
  pub total : u'.total_data_points ≡ u.total_data_points + chunks_points chunks
  pub conserved :
      buffer_points u'.send_buffer + chunks_points chunks ≡ buffer_points u.send_buffer + n

idle :
    (u u' : Upstream)
    → u'.sequence.current ≡ u.sequence.current
    → u'.total_data_points ≡ u.total_data_points
    → u'.send_buffer ≡ u.send_buffer
    → Advances u u' [] 0
unfolding chunks_points range_from numbers_of
idle u u' e f g = record {
  current = omega arith;
  numbers = refl;
  total = omega arith;
  conserved = ap (λ m. buffer_points m + 0) g;
}

group_points_count-groups_of :
    (m : Map DataId DataPoints) → group_points_count (groups_of m) ≡ buffer_points m
unfolding group_points_count groups_of buffer_points
group_points_count-groups_of [] = refl
group_points_count-groups_of ((id, dps) ∷ m) =
    ap (λ n. length dps + n) (group_points_count-groups_of m)

valid-Advances :
    (u : Upstream)
    → IsSound u
    → (u.total_data_points + buffer_points u.send_buffer < 18446744073709551616)
      × (u.sequence.current + 1 < 4294967296)
    → Advances u (flush_valid u).0 (chunks_of (flush_valid u).1) 0
unfolding flush_valid next_sequence chunks_points range_from buffer_points numbers_of
valid-Advances u h fits = record {
  current = omega arith;
  numbers = ap (λ n. n ∷ []) (omega arith);
  total = omega (arith, h.points, group_points_count-groups_of u.send_buffer);
  conserved = omega (arith, group_points_count-groups_of u.send_buffer);
}

range_from-append :
    (start m n : ℕ) → range_from start m ++ range_from (start + m) n ≡ range_from start (m + n)
unfolding range_from
range_from-append start zero n =
    let e : start + 0 ≡ start = omega arith in
    let f : n ≡ 0 + n = omega arith in ap (λ x. range_from x n) e ∙ ap (range_from start) f
range_from-append start (suc m) n =
    let e : start + suc m ≡ suc start + m = omega arith in
    let f : suc (m + n) ≡ suc m + n = omega arith in
    ap (λ xs. start ∷ xs)
      (ap (λ x. range_from (suc start) m ++ range_from x n) e ∙ range_from-append (suc start) m n)
    ∙ ap (range_from start) f

chunks_points-append :
    (cs ds : List Chunk) → chunks_points (cs ++ ds) ≡ chunks_points cs + chunks_points ds
unfolding chunks_points
chunks_points-append [] ds = omega arith
chunks_points-append (c ∷ cs) ds = omega (arith, chunks_points-append cs ds)

numbers-append : (cs ds : List Chunk) → numbers_of (cs ++ ds) ≡ numbers_of cs ++ numbers_of ds
unfolding numbers_of
numbers-append [] ds = refl
numbers-append (c ∷ cs) ds = ap (λ ns. c.number ∷ ns) (numbers-append cs ds)

joined_numbers :
    (a b m n : ℕ) (xs ys zs : List ℕ)
    → zs ≡ xs ++ ys
    → xs ≡ range_from (a + 1) m
    → ys ≡ range_from (b + 1) n
    → b ≡ a + m
    → zs ≡ range_from (a + 1) (m + n)
joined_numbers a b m n xs ys zs e f g h =
    let k : b + 1 ≡ a + 1 + m = omega arith in
    e
    ∙ ap (λ l. l ++ ys) f
    ∙ ap (λ l. range_from (a + 1) m ++ l) (g ∙ ap (λ x. range_from x n) k)
    ∙ range_from-append (a + 1) m n

advance :
    (u u' u'' : Upstream) (cs ds : List Chunk) (n k : ℕ)
    → Advances u u' cs n
    → Advances u' u'' ds k
    → Advances u u'' (cs ++ ds) (n + k)
advance u u' u'' cs ds n k h g = record {
  current = omega (arith, h.current, g.current, length-append cs ds);
  numbers =
      joined_numbers u.sequence.current u'.sequence.current (length cs) (length ds) (numbers_of cs)
        (numbers_of ds) (numbers_of (cs ++ ds)) (numbers-append cs ds) h.numbers g.numbers h.current
      ∙ ap (range_from (u.sequence.current + 1)) (sym (length-append cs ds));
  total = omega (arith, h.total, g.total, chunks_points-append cs ds);
  conserved = omega (arith, h.conserved, g.conserved, chunks_points-append cs ds);
}

keep_alias-idle :
    (o : Option ℕ) (u : Upstream) (a : ℕ) (id : DataId) → Advances u (keep_alias o u a id) [] 0
unfolding keep_alias
keep_alias-idle none u a id = idle u _ refl refl refl
keep_alias-idle (some b) u a id = idle u u refl refl refl

aliases-idle :
    (u : Upstream) (aliases : Map ℕ DataId)
    → IsSound u
    → IsSound (process_data_id_aliases u aliases)
      × Advances u (process_data_id_aliases u aliases) [] 0
unfolding process_data_id_aliases
aliases-idle u [] h = (h, idle u u refl refl refl)
aliases-idle u ((a, id) ∷ rest) h =
    let o = lookup id u.rev_data_id_aliases in
    let later =
      aliases-idle (keep_alias (lookup id u.rev_data_id_aliases) u a id) rest
        (keep_alias-IsSound o u a id h) in
    (
      later.0,
      advance u (keep_alias o u a id) (process_data_id_aliases (keep_alias o u a id) rest) [] [] 0 0
          (keep_alias-idle o u a id) later.1,
    )

deliver_result-idle :
    (o : Option Bool) (u : Upstream) (n : ℕ)
    → IsSound u
    → IsSound (deliver_result o (remove_sent u n) n).0
      × Advances u (deliver_result o (remove_sent u n) n).0 [] 0
unfolding deliver_result remove_sent
deliver_result-idle none u n h = (
  record {
    points = h.points;
    size = h.size;
    total_fits = h.total_fits;
    number_fits = h.number_fits;
  },
  idle u _ refl refl refl,
)
deliver_result-idle (some b) u n h = (
  record {
    points = h.points;
    size = h.size;
    total_fits = h.total_fits;
    number_fits = h.number_fits;
  },
  idle u _ refl refl refl,
)

write-Advances :
    (u : Upstream) (dpg : DataPointGroup)
    → Advances u (write_group u dpg) [] (length dpg.data_points)
unfolding write_group chunks_points range_from numbers_of
write-Advances u dpg = record {
  current = omega arith;
  numbers = refl;
  total = omega arith;
  conserved = omega (arith, write_points u dpg);
}

flush_step_lem :
    (u : Upstream)
    → IsSound u
    → buffer_points u.send_buffer < 18446744073709551616
    → IsSound (flush u).0 × Advances u (flush u).0 (chunks_of (flush u).1) 0
flush_step_lem u h small =
    flush_cases u (λ r. IsSound r.0 × Advances u r.0 (chunks_of r.1) 0) (h, idle u u refl refl refl)
      (λ e. (h, idle u u refl refl refl))
      (λ v. (valid-IsSound u h, valid-Advances u h (valid_state u h small v)))

step_lem :
    (u : Upstream) (s : Step) (later : List Step)
    → IsSound u
    → buffer_points u.send_buffer < 18446744073709551616
    → (n : ℕ) × (written_points (s ∷ later) ≡ n + written_points later)
      × IsSound (step u s).0
      × Advances u (step u s).0 (step u s).1 n
unfolding written_points
step_lem u (write_step dpg) later h small =
    (length dpg.data_points, refl, write-IsSound u dpg h, write-Advances u dpg)
step_lem u flush_step later h small =
    let (sound, advances) = flush_step_lem u h small in (0, omega arith, sound, advances)
step_lem u (result_step n) later h small =
    let (sound, advances) = deliver_result-idle (lookup n u.waiting_results) u n h in
    (0, omega arith, unfold process_result in sound, unfold process_result in advances)
step_lem u (aliases_step aliases) later h small =
    let (sound, advances) = aliases-idle u aliases h in (0, omega arith, sound, advances)

run_lem :
    (u : Upstream) (steps : List Step)
    → IsSound u
    → buffer_points u.send_buffer + written_points steps < 18446744073709551616
    → IsSound (run u steps).0 × Advances u (run u steps).0 (run u steps).1 (written_points steps)
unfolding run
run_lem u [] h small = (h, unfold written_points in idle u u refl refl refl)
run_lem u (s ∷ steps) h small =
    let (n, split, sound, first) = step_lem u s steps h (omega arith) in
    let u' = (step u s).0 in
    let later = run_lem (step u s).0 steps sound (omega (arith, first.conserved)) in
    (
      later.0,
      subst (Advances u (run u' steps).0 ((step u s).1 ++ (run u' steps).1)) (sym split) (
          advance u u' (run u' steps).0 (step u s).1 (run u' steps).1 n (written_points steps) first
            later.1),
    )

-- The sequence numbers of messages.
unfoldable pub message_numbers : List MessageChunk → List ℕ
message_numbers [] = []
message_numbers (m ∷ ms) = m.sequence_number ∷ message_numbers ms

message_numbers-append :
    (ms ns : List MessageChunk)
    → message_numbers (ms ++ ns) ≡ message_numbers ms ++ message_numbers ns
unfolding message_numbers
message_numbers-append [] ns = refl
message_numbers-append (m ∷ ms) ns =
    ap (λ xs. m.sequence_number ∷ xs) (message_numbers-append ms ns)

flush-numbers :
    (u : Upstream) → message_numbers (messages_of (flush u).1) ≡ numbers_of (chunks_of (flush u).1)
unfolding message_numbers numbers_of
flush-numbers u =
    flush_cases u (λ r. message_numbers (messages_of r.1) ≡ numbers_of (chunks_of r.1)) refl
      (λ e. refl) (λ v. unfold flush_valid in refl)

step-numbers :
    (u : Upstream) (s : Step) → message_numbers (messages_in u s) ≡ numbers_of (step u s).1
unfolding message_numbers numbers_of
step-numbers u (write_step dpg) = refl
step-numbers u flush_step = flush-numbers u
step-numbers u (result_step n) = refl
step-numbers u (aliases_step aliases) = refl

run-numbers :
    (u : Upstream) (steps : List Step)
    → message_numbers (messages u steps) ≡ numbers_of (run u steps).1
unfolding run messages
run-numbers u [] = unfold message_numbers numbers_of in refl
run-numbers u (s ∷ steps) =
    message_numbers-append (messages_in u s) (messages (step u s).0 steps)
    ∙ ap (λ xs. xs ++ message_numbers (messages (step u s).0 steps)) (step-numbers u s)
    ∙ ap (λ xs. numbers_of (step u s).1 ++ xs) (run-numbers (step u s).0 steps)
    ∙ sym (numbers-append (step u s).1 (run (step u s).0 steps).1)

-- Over any calls on a sound upstream, as long as the points of the buffer and those written number less
-- than 2 ^ 64 together, the state stays sound: the counters are those of the buffer. The messages handed
-- to the connection have consecutive sequence numbers, from the one after the current one, none of
-- which wraps, and so have the chunks given to the hook, as many. The total grows by exactly the
-- points in the chunks, and these with those in the buffer at the end are as many as those in the
-- buffer at the start with those written.
pub run-Advances :
    (u : Upstream) (steps : List Step)
    → IsSound u
    → buffer_points u.send_buffer + written_points steps < 18446744073709551616
    → IsSound (run u steps).0
      × Advances u (run u steps).0 (run u steps).1 (written_points steps)
      × (message_numbers (messages u steps)
          ≡ range_from (u.sequence.current + 1) (length (run u steps).1))
run-Advances u steps h small =
    let (sound, advances) = run_lem u steps h small in
    (sound, advances, run-numbers u steps ∙ advances.numbers)
