-- ===== src/Upstream/Delivery.antt =====
-- No point is lost, doubled or out of order between the writes and the chunks.
use mathlib.Core.List.{append_assoc, append-nil}
use iscp_go.Prelude.{
  ℕ, ◌≡◌, refl, sym, ap, subst, ◌∙◌, inl, inr, List, [], ◌∷◌, ◌++◌, Option, none, some, Bool, arith,
  ◌==◌, nat_eq, if◌then◌else◌, Map, lookup, lookup-insert, DistinctKeys, insert-DistinctKeys,
  Bool-cases,
}
use iscp_go.Upstream.Data.{DataId, data_id_eq, same_id_iff, DataPoints, DataPointGroup}
use iscp_go.Upstream.{
  Upstream, Chunk, keep_alias, deliver_result, or_empty, write_group, groups_of, flush, flush_valid,
  process_data_id_aliases, process_result, remove_sent,
}
use iscp_go.Upstream.Flush.{flush_cases}
use iscp_go.Upstream.Aliases.{Agrees}
use iscp_go.Upstream.Messages.{AllFromServer, Matches, messages, run-Matches}
use iscp_go.Upstream.Run.{
  Step, write_step, flush_step, result_step, aliases_step, chunks_of, step, run, in_groups,
  in_chunks, in_step, written,
}

abbrev pub buffered : DataId → Upstream → DataPoints
buffered id u = or_empty (lookup id u.send_buffer)

in_groups_absent :
    (id : DataId) (m : Map DataId DataPoints) → lookup id m ≡ none → in_groups id (groups_of m) ≡ []
unfolding in_groups groups_of lookup
in_groups_absent id [] h = refl
in_groups_absent id ((j, dps) ∷ m) h = ground (arith, in_groups_absent id m)

in_groups-groups_of :
    (id : DataId) (m : Map DataId DataPoints)
    → DistinctKeys m
    → in_groups id (groups_of m) ≡ or_empty (lookup id m)
unfolding in_groups groups_of lookup
in_groups-groups_of id [] d = refl
in_groups-groups_of id ((j, dps) ∷ m) d = elim (Bool-cases (j == id)) [
  | inl e ↦ rw e (
      ap (λ xs. dps ++ xs)
        (in_groups_absent id m (subst (λ k. lookup k m ≡ none) ((same_id_iff j id).0 e) d.0))
      ∙ append-nil dps)
  | inr e ↦ rw e (in_groups-groups_of id m d.1)
]

keep_alias-buffer :
    (o : Option ℕ) (u : Upstream) (a : ℕ) (id : DataId)
    → (keep_alias o u a id).send_buffer ≡ u.send_buffer
unfolding keep_alias
keep_alias-buffer none u a id = refl
keep_alias-buffer (some b) u a id = refl

pub aliases-buffer :
    (u : Upstream) (aliases : Map ℕ DataId)
    → (process_data_id_aliases u aliases).send_buffer ≡ u.send_buffer
unfolding process_data_id_aliases
aliases-buffer u [] = refl
aliases-buffer u ((a, id) ∷ rest) =
    aliases-buffer (keep_alias (lookup id u.rev_data_id_aliases) u a id) rest
    ∙ keep_alias-buffer (lookup id u.rev_data_id_aliases) u a id

deliver_result-buffer :
    (o : Option Bool) (u : Upstream) (n : ℕ) → (deliver_result o u n).0.send_buffer ≡ u.send_buffer
unfolding deliver_result
deliver_result-buffer none u n = refl
deliver_result-buffer (some b) u n = refl

pub result-buffer : (u : Upstream) (n : ℕ) → (process_result u n).0.send_buffer ≡ u.send_buffer
unfolding process_result
result-buffer u n = deliver_result-buffer (lookup n u.waiting_results) (remove_sent u n) n

write-Delivered :
    (id : DataId) (u : Upstream) (dpg : DataPointGroup)
    → buffered id (write_group u dpg)
      ≡ buffered id u ++ (if dpg.data_id == id then dpg.data_points else [])
unfolding write_group
write-Delivered id u dpg =
    ap or_empty (
      lookup-insert dpg.data_id id (or_empty (lookup dpg.data_id u.send_buffer) ++ dpg.data_points)
        u.send_buffer)
    ∙ elim (Bool-cases (dpg.data_id == id)) [
      | inl e ↦ rw e (
          ap (λ k. or_empty (lookup k u.send_buffer) ++ dpg.data_points)
            ((same_id_iff dpg.data_id id).0 e))
      | inr e ↦ rw e (sym (append-nil (buffered id u)))
    ]

valid-Delivered :
    (id : DataId) (u : Upstream)
    → DistinctKeys u.send_buffer
    → in_chunks id (chunks_of (flush_valid u).1) ++ buffered id (flush_valid u).0 ≡ buffered id u
unfolding flush_valid in_chunks lookup
valid-Delivered id u d = append-nil _ ∙ append-nil _ ∙ in_groups-groups_of id u.send_buffer d

flush-Delivered :
    (id : DataId) (u : Upstream)
    → DistinctKeys u.send_buffer
    → in_chunks id (chunks_of (flush u).1) ++ buffered id (flush u).0 ≡ buffered id u
flush-Delivered id u d =
    flush_cases u (λ r. in_chunks id (chunks_of r.1) ++ buffered id r.0 ≡ buffered id u)
      (unfold in_chunks in refl) (λ e. unfold in_chunks in refl) (λ v. valid-Delivered id u d)

pub flush-DistinctKeys :
    (u : Upstream) → DistinctKeys u.send_buffer → DistinctKeys (flush u).0.send_buffer
flush-DistinctKeys u d =
    flush_cases u (λ r. DistinctKeys r.0.send_buffer) d (λ e. d) (λ v. unfold flush_valid in tt)

step-DistinctKeys :
    (u : Upstream) (s : Step) → DistinctKeys u.send_buffer → DistinctKeys (step u s).0.send_buffer
step-DistinctKeys u (write_step dpg) d =
    unfold write_group in insert-DistinctKeys dpg.data_id _ u.send_buffer d
step-DistinctKeys u flush_step d = flush-DistinctKeys u d
step-DistinctKeys u (result_step n) d = subst DistinctKeys (sym (result-buffer u n)) d
step-DistinctKeys u (aliases_step aliases) d = subst DistinctKeys (sym (aliases-buffer u aliases)) d

step-Delivered :
    (id : DataId) (u : Upstream) (s : Step)
    → DistinctKeys u.send_buffer
    → in_chunks id (step u s).1 ++ buffered id (step u s).0 ≡ buffered id u ++ in_step id s
unfolding in_chunks
step-Delivered id u (write_step dpg) d = write-Delivered id u dpg
step-Delivered id u flush_step d = flush-Delivered id u d ∙ sym (append-nil _)
step-Delivered id u (result_step n) d =
    ap (λ m. or_empty (lookup id m)) (result-buffer u n) ∙ sym (append-nil _)
step-Delivered id u (aliases_step aliases) d =
    ap (λ m. or_empty (lookup id m)) (aliases-buffer u aliases) ∙ sym (append-nil _)

in_chunks-append :
    (id : DataId) (cs ds : List Chunk)
    → in_chunks id (cs ++ ds) ≡ in_chunks id cs ++ in_chunks id ds
unfolding in_chunks
in_chunks-append id [] ds = refl
in_chunks-append id (c ∷ cs) ds =
    ap (λ xs. in_groups id c.groups ++ xs) (in_chunks-append id cs ds)
    ∙ sym (append_assoc (in_groups id c.groups) (in_chunks id cs) (in_chunks id ds))

joined :
    (x a b c bs bu i w : DataPoints)
    → x ≡ a ++ b
    → b ++ c ≡ bs ++ w
    → a ++ bs ≡ bu ++ i
    → x ++ c ≡ bu ++ (i ++ w)
joined x a b c bs bu i w e f g =
    ap (λ xs. xs ++ c) e
    ∙ append_assoc a b c
    ∙ ap (λ xs. a ++ xs) f
    ∙ sym (append_assoc a bs w)
    ∙ ap (λ xs. xs ++ w) g
    ∙ append_assoc bu i w

run-delivered :
    (id : DataId) (u : Upstream) (steps : List Step)
    → DistinctKeys u.send_buffer
    → in_chunks id (run u steps).1 ++ buffered id (run u steps).0
      ≡ buffered id u ++ written id steps
unfolding run written
run-delivered id u [] d = unfold in_chunks in sym (append-nil _)
run-delivered id u (s ∷ steps) d =
    let u' = (step u s).0 in
    let later = run u' steps in
    joined (in_chunks id ((step u s).1 ++ later.1)) (in_chunks id (step u s).1)
      (in_chunks id later.1) (buffered id later.0) (buffered id u') (buffered id u) (in_step id s)
      (written id steps) (in_chunks-append id (step u s).1 later.1)
      (run-delivered id u' steps (step-DistinctKeys u s d)) (step-Delivered id u s d)

-- Over any calls on an upstream whose buffer has distinct keys and whose aliases, old and new, are those of a server
-- that gives each alias to one data ID: from each message handed to the connection, which is for the
-- alias of the stream, the server reads the groups and the sequence number of one chunk, message by
-- message in the order of the chunks. The points of each data ID in these chunks, followed by those
-- still in the buffer, are those that were in the buffer followed by those written: none is lost,
-- doubled or moved, refused flushes and results included.
pub run-delivers :
    (server : Map ℕ DataId) (id : DataId) (u : Upstream) (steps : List Step)
    → DistinctKeys u.send_buffer
    → Agrees server u.rev_data_id_aliases
    → AllFromServer server steps
    → Matches server u.id_alias (messages u steps) (run u steps).1
      × (in_chunks id (run u steps).1 ++ buffered id (run u steps).0
          ≡ buffered id u ++ written id steps)
run-delivers server id u steps d h f =
    (run-Matches server u.id_alias u steps (h, refl) f, run-delivered id u steps d)
