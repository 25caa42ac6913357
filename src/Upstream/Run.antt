-- ===== src/Upstream/Run.antt =====
-- Sequences of calls on an upstream, and what they write and send.
use iscp_go.Prelude.{ℕ, List, [], ◌∷◌, ◌++◌, ◌==◌, nat_eq, if◌then◌else◌, Map}
use iscp_go.Upstream.Data.{DataId, data_id_eq, DataPoints, DataPointGroup, DataPointGroups}
use iscp_go.Upstream.{
  Upstream, Chunk, Flushed, empty_buffer, refused, chunk_sent, write_group, flush,
  process_data_id_aliases, process_result,
}

-- The calls of the loops: a group from `dpgCh`, a flush for whatever reason, a result, a map of aliases.
pub data Step : Type 0 where
  write_step : DataPointGroup → Step
  flush_step : Step
  result_step : ℕ → Step
  aliases_step : Map ℕ DataId → Step

abbrev pub chunks_of : Flushed → List Chunk
chunks_of empty_buffer = []
chunks_of (refused e) = []
chunks_of (chunk_sent msg_chunk chunk) = chunk ∷ []

abbrev pub step : Upstream → Step → Upstream × List Chunk
step u (write_step dpg) = (write_group u dpg, [])
step u flush_step = ((flush u).0, chunks_of (flush u).1)
step u (result_step n) = ((process_result u n).0, [])
step u (aliases_step aliases) = (process_data_id_aliases u aliases, [])

unfoldable pub run : Upstream → List Step → Upstream × List Chunk
run u [] = (u, [])
run u (s ∷ steps) = let later = run (step u s).0 steps in (later.0, (step u s).1 ++ later.1)

-- The points of a data ID in groups, in chunks and in what is written, in order.
unfoldable pub in_groups : DataId → DataPointGroups → DataPoints
in_groups id [] = []
in_groups id (dpg ∷ dpgs) =
    let rest = in_groups id dpgs in if dpg.data_id == id then dpg.data_points ++ rest else rest

unfoldable pub in_chunks : DataId → List Chunk → DataPoints
in_chunks id [] = []
in_chunks id (c ∷ cs) = in_groups id c.groups ++ in_chunks id cs

abbrev pub in_step : DataId → Step → DataPoints
in_step id (write_step dpg) = if dpg.data_id == id then dpg.data_points else []
in_step id flush_step = []
in_step id (result_step n) = []
in_step id (aliases_step aliases) = []

unfoldable pub written : DataId → List Step → DataPoints
written id [] = []
written id (s ∷ steps) = in_step id s ++ written id steps
