-- ===== src/Downstream/Acks.antt =====
-- What is acknowledged: every chunk that was read, once, in order, in numbered acknowledgements.
use iscp_go.Prelude.{
  ℕ, ◌+◌, ◌≡◌, refl, sym, ap, ◌∙◌, List, [], ◌∷◌, ◌++◌, Option, none, some, false, ◌&&◌, nat_eq,
  if_cases, Map, lookup,
}
use mathlib.Core.List.{append-nil}
use iscp_go.Ids.{AliasGenerator, next_sequence, u32}
use iscp_go.Upstream.Data.{DataId, data_id_eq, MessageGroup}
use iscp_go.Downstream.{
  InfoPointer, UpstreamOrAlias, by_upstream_alias, by_info, ChunkResult, ChunkAck, Downstream,
  next_of, filter_data_id, give_alias, assign_data_id_alias, push_data_id_ack_buffer,
  process_data_points, has_pointer, give_info_alias, assign_upstream_info_alias,
  push_upstream_info_ack_buffer, process_upstream_alias, push_result_ack_buffer, is_empty,
  flush_ack,
}
use iscp_go.Downstream.Reading.{
  WireChunk, DownstreamChunk, Read, got, failed, succeeded, ok, acknowledge, aliases_given,
  wire_to_downstream_chunk, read_data_points,
}
use iscp_go.Downstream.Run.{Event, reads, flushes, happens}

module _ {Uuid : Type 0} where
  -- What a successful read is acknowledged with.
  abbrev pub report_of : WireChunk Uuid → Read (DownstreamChunk Uuid) → List (ChunkResult Uuid)
  report_of dps (failed e) = []
  report_of dps (got c) =
      record {
        result_code = succeeded;
        result_string = ok;
        sequence_number_in_upstream = dps.sequence_number;
        stream_id_of_upstream = c.upstream_info.stream_id;
      }
      ∷ []

  abbrev pub reports_at : Downstream Uuid → Event Uuid → List (ChunkResult Uuid)
  reports_at d (reads dps) = report_of dps (read_data_points d dps).1
  reports_at d flushes = []

  -- The reports on all reads that give a chunk to the caller.
  unfoldable pub reports : Downstream Uuid → List (Event Uuid) → List (ChunkResult Uuid)
  reports d [] = []
  reports d (e ∷ es) = reports_at d e ++ reports (happens d e).0 es

  unfoldable pub all_results : List (ChunkAck Uuid) → List (ChunkResult Uuid)
  all_results [] = []
  all_results (ack ∷ acks) = ack.results ++ all_results acks

  -- Consecutive numbers, and something in each acknowledgement.
  abbrev pub Numbered : ℕ → List (ChunkAck Uuid) → Type 0
  Numbered n [] = Unit {0}
  Numbered n (ack ∷ acks) =
      (ack.ack_id ≡ u32 (n + 1))
      × ((is_empty ack.ack_data_ids && is_empty ack.results && is_empty ack.upstream_aliases)
          ≡ false)
      × Numbered (u32 (n + 1)) acks

  abbrev pub SameReports : Downstream Uuid → Downstream Uuid → Type 0
  SameReports d e =
      (e.result_ack_buffer ≡ d.result_ack_buffer)
      × (e.chunk_ack_id_sequence ≡ d.chunk_ack_id_sequence)

  then_same : (d e f : Downstream Uuid) → SameReports d e → SameReports e f → SameReports d f
  then_same d e f h k = (k.0 ∙ h.0, k.1 ∙ h.1)

  give_same :
      (o : Option ℕ) (next : Option (AliasGenerator × ℕ)) (d : Downstream Uuid) (id : DataId)
      → SameReports d (give_alias o next d id).0
  unfolding give_alias
  give_same (some k) next d id = (refl, refl)
  give_same none none d id = (refl, refl)
  give_same none (some (g, a)) d id = (refl, refl)

  assign_same :
      (d : Downstream Uuid) (ids : List DataId) → SameReports d (assign_data_id_alias d ids).0
  unfolding assign_data_id_alias
  assign_same d [] = (refl, refl)
  assign_same d (id ∷ ids) =
      let o = lookup id d.rev_data_id_aliases in
      let next = next_of d.data_id_alias_generator in
      then_same d (give_alias o next d id).0 (assign_data_id_alias (give_alias o next d id).0 ids).0
        (give_same o next d id) (assign_same (give_alias o next d id).0 ids)

  process_same :
      (d : Downstream Uuid) (gs : List MessageGroup) → SameReports d (process_data_points d gs)
  unfolding process_data_points push_data_id_ack_buffer
  process_same d gs = assign_same d (filter_data_id gs)

  info_same :
      (d : Downstream Uuid) (next : Option (AliasGenerator × ℕ)) (info : InfoPointer Uuid)
      → SameReports d (give_info_alias next d info).0
  unfolding give_info_alias
  info_same d none info = (refl, refl)
  info_same d (some (g, a)) info = (refl, refl)

  upstream_same :
      (d : Downstream Uuid) (u : UpstreamOrAlias Uuid) → SameReports d (process_upstream_alias d u)
  unfolding process_upstream_alias assign_upstream_info_alias push_upstream_info_ack_buffer
  upstream_same d (by_upstream_alias a) = (refl, refl)
  upstream_same d (by_info info) =
      if_cases (λ (r : Downstream Uuid × Map ℕ (InfoPointer Uuid)). SameReports d r.0)
        (has_pointer d.upstream_infos info) (λ e. (refl, refl))
        (λ e. info_same d (next_of d.upstream_info_alias_generator) info)

  acknowledged :
      (d : Downstream Uuid) (dps : WireChunk Uuid) (r : Read (DownstreamChunk Uuid))
      → ((acknowledge d dps r).result_ack_buffer ≡ d.result_ack_buffer ++ report_of dps r)
        × ((acknowledge d dps r).chunk_ack_id_sequence ≡ d.chunk_ack_id_sequence)
  unfolding acknowledge push_result_ack_buffer
  acknowledged d dps (failed e) = (sym (append-nil d.result_ack_buffer), refl)
  acknowledged d dps (got c) = (refl, refl)

  pub read_reports :
      (d : Downstream Uuid) (dps : WireChunk Uuid)
      → ((read_data_points d dps).0.result_ack_buffer
          ≡ d.result_ack_buffer ++ report_of dps (read_data_points d dps).1)
        × ((read_data_points d dps).0.chunk_ack_id_sequence ≡ d.chunk_ack_id_sequence)
  unfolding read_data_points aliases_given
  read_reports d dps =
      let up = process_upstream_alias d dps.upstream_or_alias in
      let given = process_data_points up dps.data_point_groups in
      let (b, s) =
        then_same d up given (upstream_same d dps.upstream_or_alias)
          (process_same up dps.data_point_groups) in
      let (r, q) = acknowledged given dps (wire_to_downstream_chunk given dps) in
      (r ∙ ap (λ x. x ++ report_of dps (wire_to_downstream_chunk given dps)) b, q ∙ s)

  -- What a flush does, whether or not it sends.
  abbrev pub Flushed : Downstream Uuid → Downstream Uuid × Option (ChunkAck Uuid) → Type 0
  Flushed d (e, none) = SameReports d e
  Flushed d (e, some ack) =
      (ack.results ≡ d.result_ack_buffer)
      × (e.result_ack_buffer ≡ [])
      × (ack.ack_id ≡ u32 (d.chunk_ack_id_sequence.current + 1))
      × (e.chunk_ack_id_sequence.current ≡ u32 (d.chunk_ack_id_sequence.current + 1))
      × ((is_empty ack.ack_data_ids && is_empty ack.results && is_empty ack.upstream_aliases)
          ≡ false)

  pub flush-Flushed : (d : Downstream Uuid) → Flushed d (flush_ack d)
  unfolding flush_ack next_sequence
  flush-Flushed d =
      if_cases (λ (r : Downstream Uuid × Option (ChunkAck Uuid)). Flushed d r)
        (is_empty d.data_id_ack_buffer
          && is_empty d.result_ack_buffer
          && is_empty d.upstream_info_ack_buffer)
        (λ e. (refl, refl)) (λ e. (refl, refl, refl, refl, e))
