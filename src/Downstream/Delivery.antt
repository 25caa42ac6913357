-- ===== src/Downstream/Delivery.antt =====
-- What a server that writes the aliases it has been sent can rely on.
use iscp_go.Prelude.{
  ℕ, ◌+◌, ◌<◌, List, [], ◌∷◌, ◌++◌, Option, ◌&&◌, nat_eq, arith, if_cases, length, Map, lookup,
}
use iscp_go.Upstream.Data.{DataId, data_id_eq}
use iscp_go.Downstream.{
  Downstream, ChunkAck, filter_data_id, process_upstream_alias, push_result_ack_buffer, is_empty,
  flush_ack,
}
use iscp_go.Downstream.Reading.{
  WireChunk, DownstreamChunk, Read, got, failed, acknowledge, aliases_given, read_data_points,
}
use iscp_go.Downstream.Run.{Event, reads, flushes, happens, sent_of, run, ids_of, ids_in}
use iscp_go.Downstream.Aliases.{
  Within, Inv, After, stays, then_After, process-After, upstream-After,
}

module _ {Uuid : Type 0} where
  -- The aliases in all acknowledgements are those of a table.
  abbrev pub AllWithin : List (ChunkAck Uuid) → Map ℕ DataId → Type 0
  AllWithin [] m = Unit {0}
  AllWithin (ack ∷ acks) m = Within ack.ack_data_ids m × AllWithin acks m

  AllWithin-Within :
      (acks : List (ChunkAck Uuid)) (m n : Map ℕ DataId)
      → AllWithin acks m
      → Within m n
      → AllWithin acks n
  AllWithin-Within [] m n h w = tt
  AllWithin-Within (ack ∷ acks) m n h w =
      ((λ a id q. w a id (h.0 a id q)), AllWithin-Within acks m n h.1 w)

  AllWithin-append :
      (acks more : List (ChunkAck Uuid)) (m : Map ℕ DataId)
      → AllWithin acks m
      → AllWithin more m
      → AllWithin (acks ++ more) m
  AllWithin-append [] more m h k = k
  AllWithin-append (ack ∷ acks) more m h k = (h.0, AllWithin-append acks more m h.1 k)

  pub given-After :
      (d : Downstream Uuid) (dps : WireChunk Uuid)
      → Inv d
      → d.data_id_alias_generator.current_alias + length (filter_data_id dps.data_point_groups)
        < 4294967296
      → After d (aliases_given d dps) (length (filter_data_id dps.data_point_groups))
  unfolding aliases_given
  given-After d dps v l =
      let up = upstream-After d dps.upstream_or_alias v in
      then_After d _ _ 0 _ _ (omega arith) up (
        process-After (process_upstream_alias d dps.upstream_or_alias) dps.data_point_groups
          up.holds (omega (arith, up.few, l)))

  acknowledged :
      (d : Downstream Uuid) (dps : WireChunk Uuid) (r : Read (DownstreamChunk Uuid))
      → Inv d
      → After d (acknowledge d dps r) 0
  unfolding acknowledge push_result_ack_buffer
  acknowledged d dps (failed e) v = stays d v
  acknowledged d dps (got c) v = record {
    holds = record { known = v.known; issued = v.issued; fits = v.fits; buffered = v.buffered };
    grows = λ a id h. h;
    few = omega arith;
  }

  abbrev pub Good : Downstream Uuid → ℕ → Downstream Uuid × List (ChunkAck Uuid) → Type 0
  Good d n r = After d r.0 n × AllWithin r.1 r.0.data_id_aliases

  flushed : (d : Downstream Uuid) → Inv d → Good d 0 ((flush_ack d).0, sent_of (flush_ack d).1)
  unfolding flush_ack lookup
  flushed d v =
      if_cases (λ (r : Downstream Uuid × Option (ChunkAck Uuid)). Good d 0 (r.0, sent_of r.1))
        (is_empty d.data_id_ack_buffer
          && is_empty d.result_ack_buffer
          && is_empty d.upstream_info_ack_buffer)
        (λ e. (stays d v, tt))
        (λ e. (
          record {
            holds = record {
              known = v.known;
              issued = v.issued;
              fits = v.fits;
              buffered = λ a id q. cc;
            };
            grows = λ a id h. h;
            few = omega arith;
          },
          (v.buffered, tt),
        ))

  step-Good :
      (d : Downstream Uuid) (e : Event Uuid)
      → Inv d
      → d.data_id_alias_generator.current_alias + ids_of e < 4294967296
      → Good d (ids_of e) (happens d e)
  unfolding read_data_points
  step-Good d (reads dps) v l =
      let given = given-After d dps v l in
      (
        then_After d _ _ _ 0 _ (omega arith) given
            (acknowledged (aliases_given d dps) dps _ given.holds),
        tt,
      )
  step-Good d flushes v l = flushed d v

  pub run-Good :
      (d : Downstream Uuid) (es : List (Event Uuid))
      → Inv d
      → d.data_id_alias_generator.current_alias + ids_in es < 4294967296
      → Good d (ids_in es) (run d es)
  unfolding run ids_in
  run-Good d [] v l = (stays d v, tt)
  run-Good d (e ∷ es) v l =
      let (after, acks) = step-Good d e v (omega arith) in
      let (later, more) = run-Good (happens d e).0 es after.holds (omega (arith, after.few, l)) in
      (
        then_After d _ _ (ids_of e) (ids_in es) _ (omega arith) after later,
        AllWithin-append _ _ _ (AllWithin-Within _ _ _ acks later.grows) more,
      )
