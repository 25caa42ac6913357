-- ===== src/Downstream/Run.antt =====
-- Chunks that are read and acknowledgements that are flushed, in any order.
use iscp_go.Prelude.{ℕ, List, [], ◌∷◌, ◌++◌, Option, none, some, ◌+◌, length}
use iscp_go.Downstream.{Downstream, ChunkAck, flush_ack, filter_data_id}
use iscp_go.Downstream.Reading.{WireChunk, read_data_points}

pub data Event (Uuid : Type 0) : Type 0 where
  reads : WireChunk Uuid → Event Uuid
  flushes : Event Uuid

module _ {Uuid : Type 0} where
  abbrev pub sent_of : Option (ChunkAck Uuid) → List (ChunkAck Uuid)
  sent_of none = []
  sent_of (some ack) = ack ∷ []

  -- The state after a call, and the acknowledgements sent by it.
  abbrev pub happens : Downstream Uuid → Event Uuid → Downstream Uuid × List (ChunkAck Uuid)
  happens d (reads dps) = ((read_data_points d dps).0, [])
  happens d flushes = ((flush_ack d).0, sent_of (flush_ack d).1)

  unfoldable pub run : Downstream Uuid → List (Event Uuid) → Downstream Uuid × List (ChunkAck Uuid)
  run d [] = (d, [])
  run d (e ∷ es) =
      let (d', sent) = happens d e in let (d'', later) = run d' es in (d'', sent ++ later)

  -- How many data IDs the chunks name in full.
  abbrev pub ids_of : Event Uuid → ℕ
  ids_of (reads dps) = length (filter_data_id dps.data_point_groups)
  ids_of flushes = 0

  unfoldable pub ids_in : List (Event Uuid) → ℕ
  ids_in [] = 0
  ids_in (e ∷ es) = ids_of e + ids_in es
