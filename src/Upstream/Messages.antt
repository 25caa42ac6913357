-- ===== src/Upstream/Messages.antt =====
-- The messages that the flushes of an upstream hand to the connection, beside the chunks given to the hook.
use iscp_go.Prelude.{
  ℕ, ◌≡◌, refl, ◌∙◌, List, [], ◌∷◌, ◌++◌, Option, none, some, Bool, nat_eq, Map, lookup,
}
use iscp_go.Upstream.Data.{DataId, data_id_eq}
use iscp_go.Upstream.{
  Upstream, MessageChunk, Chunk, Flushed, empty_buffer, refused, chunk_sent, keep_alias,
  deliver_result, flush, flush_valid, process_data_id_aliases, process_result, remove_sent,
  write_group, groups_of,
}
use iscp_go.Upstream.Run.{
  Step, write_step, flush_step, result_step, aliases_step, chunks_of, step, run,
}
use iscp_go.Upstream.Flush.{flush_cases}
use iscp_go.Upstream.Aliases.{
  Agrees, FromServer, resolved, all_present, groups_resolve, process-Agrees,
}

abbrev pub messages_of : Flushed → List MessageChunk
messages_of empty_buffer = []
messages_of (refused e) = []
messages_of (chunk_sent msg_chunk chunk) = msg_chunk ∷ []

abbrev pub messages_in : Upstream → Step → List MessageChunk
messages_in u (write_step dpg) = []
messages_in u flush_step = messages_of (flush u).1
messages_in u (result_step n) = []
messages_in u (aliases_step aliases) = []

-- The messages of a sequence of calls.
unfoldable pub messages : Upstream → List Step → List MessageChunk
messages u [] = []
messages u (s ∷ steps) = messages_in u s ++ messages (step u s).0 steps

-- The aliases of each call are the server's.
abbrev pub StepFrom : Map ℕ DataId → Step → Type 0
StepFrom server (write_step dpg) = Unit {0}
StepFrom server flush_step = Unit {0}
StepFrom server (result_step n) = Unit {0}
StepFrom server (aliases_step aliases) = FromServer server aliases

abbrev pub AllFromServer : Map ℕ DataId → List Step → Type 0
AllFromServer server [] = Unit {0}
AllFromServer server (s ∷ steps) = StepFrom server s × AllFromServer server steps

-- Each message is for the stream's alias, has the number of its chunk, and a server with these aliases reads from
-- it the groups of the chunk: the same data IDs with the same points, in order.
pub data Matches (server : Map ℕ DataId) (alias : ℕ) : List MessageChunk → List Chunk → Type 0 where
  none_sent : Matches server alias [] []
  one_sent :
      (m : MessageChunk) (c : Chunk) (ms : List MessageChunk) (cs : List Chunk)
      → m.stream_id_alias ≡ alias
      → m.sequence_number ≡ c.number
      → resolved server m.message_groups ≡ all_present c.groups
      → Matches server alias ms cs
      → Matches server alias (m ∷ ms) (c ∷ cs)

matched :
    (server : Map ℕ DataId) (alias : ℕ) (ms ns : List MessageChunk) (cs ds : List Chunk)
    → Matches server alias ms cs
    → Matches server alias ns ds
    → Matches server alias (ms ++ ns) (cs ++ ds)
matched server alias ms ns cs ds none_sent g = g
matched server alias ms ns cs ds (one_sent m c ms' cs' a n r h) g =
    one_sent m c (ms' ++ ns) (cs' ++ ds) a n r (matched server alias ms' ns cs' ds h g)

keep_alias-id :
    (o : Option ℕ) (u : Upstream) (a : ℕ) (id : DataId)
    → (keep_alias o u a id).id_alias ≡ u.id_alias
unfolding keep_alias
keep_alias-id none u a id = refl
keep_alias-id (some b) u a id = refl

aliases-id :
    (u : Upstream) (aliases : Map ℕ DataId)
    → (process_data_id_aliases u aliases).id_alias ≡ u.id_alias
unfolding process_data_id_aliases
aliases-id u [] = refl
aliases-id u ((a, id) ∷ rest) =
    aliases-id (keep_alias (lookup id u.rev_data_id_aliases) u a id) rest
    ∙ keep_alias-id (lookup id u.rev_data_id_aliases) u a id

-- The aliases of a state are the server's, and its stream's alias is the one given.
abbrev Serves : Map ℕ DataId → ℕ → Upstream → Type 0
Serves server alias u = Agrees server u.rev_data_id_aliases × (u.id_alias ≡ alias)

result-Serves :
    (server : Map ℕ DataId) (alias : ℕ) (o : Option Bool) (u : Upstream) (n : ℕ)
    → Serves server alias u
    → Serves server alias (deliver_result o (remove_sent u n) n).0
unfolding deliver_result remove_sent
result-Serves server alias none u n h = h
result-Serves server alias (some b) u n h = h

step-Serves :
    (server : Map ℕ DataId) (alias : ℕ) (u : Upstream) (s : Step)
    → StepFrom server s
    → Serves server alias u
    → Serves server alias (step u s).0
step-Serves server alias u (write_step dpg) f h = unfold write_group in h
step-Serves server alias u flush_step f h =
    flush_cases u (λ r. Serves server alias r.0) h (λ e. h) (λ v. unfold flush_valid in h)
step-Serves server alias u (result_step n) f h =
    unfold process_result in result-Serves server alias (lookup n u.waiting_results) u n h
step-Serves server alias u (aliases_step aliases) f h =
    (process-Agrees server u aliases h.0 f, aliases-id u aliases ∙ h.1)

valid-Matches :
    (server : Map ℕ DataId) (alias : ℕ) (u : Upstream)
    → Serves server alias u
    → Matches server alias (messages_of (flush_valid u).1) (chunks_of (flush_valid u).1)
unfolding flush_valid process_data_id_aliases
valid-Matches server alias u h =
    one_sent _ _ [] [] h.1 refl (groups_resolve server u [] (groups_of u.send_buffer) h.0 tt)
      none_sent

step-Matches :
    (server : Map ℕ DataId) (alias : ℕ) (u : Upstream) (s : Step)
    → Serves server alias u
    → Matches server alias (messages_in u s) (step u s).1
step-Matches server alias u (write_step dpg) h = none_sent
step-Matches server alias u flush_step h =
    flush_cases u (λ r. Matches server alias (messages_of r.1) (chunks_of r.1)) none_sent
      (λ e. none_sent) (λ v. valid-Matches server alias u h)
step-Matches server alias u (result_step n) h = none_sent
step-Matches server alias u (aliases_step aliases) h = none_sent

pub run-Matches :
    (server : Map ℕ DataId) (alias : ℕ) (u : Upstream) (steps : List Step)
    → Serves server alias u
    → AllFromServer server steps
    → Matches server alias (messages u steps) (run u steps).1
unfolding run messages
run-Matches server alias u [] h f = none_sent
run-Matches server alias u (s ∷ steps) h f =
    matched server alias (messages_in u s) (messages (step u s).0 steps) (step u s).1
      (run (step u s).0 steps).1 (step-Matches server alias u s h)
      (run-Matches server alias (step u s).0 steps (step-Serves server alias u s f.0 h) f.1)
