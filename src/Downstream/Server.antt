-- ===== src/Downstream/Server.antt =====
-- A server that abbreviates data IDs by the aliases that the acknowledgements gave it.
use iscp_go.Prelude.{
  ℕ, ◌⊎◌, ◌+◌, ◌<◌, ◌≡◌, refl, ap, ◌∙◌, inl, inr, List, [], ◌∷◌, Option, none, some, nat_eq, arith,
  length, Map, lookup,
}
use iscp_go.Upstream.Data.{
  DataId, data_id_eq, DataPointGroups, DataIdOrAlias, by_id, by_alias, MessageGroup,
}
use iscp_go.Downstream.{Downstream, UpstreamInfo, ChunkAck, filter_data_id}
use iscp_go.Downstream.Reading.{
  WireChunk, got, or_fail, invalid_data_id_alias, data_id_of, groups_of_wire, info_of,
  wire_to_downstream_chunk, aliases_given, read_data_points,
}
use iscp_go.Downstream.Run.{Event, run, ids_in}
use iscp_go.Downstream.Aliases.{Inv}
use iscp_go.Downstream.Delivery.{AllWithin, run-Good, given-After}

unfoldable pub id_or_alias : Option ℕ → DataId → DataIdOrAlias
id_or_alias none id = by_id id
id_or_alias (some a) id = by_alias a

-- The groups of a chunk as the server writes them, with its table.
unfoldable pub written_groups : Map DataId ℕ → DataPointGroups → List MessageGroup
written_groups table [] = []
written_groups table (g ∷ gs) =
    record {
      data_id_or_alias = id_or_alias (lookup g.data_id table) g.data_id;
      group_points = g.data_points;
    }
    ∷ written_groups table gs

-- All aliases of the server's table stand for these data IDs in the client's.
abbrev pub Resolved : Map DataId ℕ → Map ℕ DataId → Type 0
Resolved table m = (id : DataId) (a : ℕ) → lookup id table ≡ some a → lookup a m ≡ some id

id_resolves :
    (o : Option ℕ) (m : Map ℕ DataId) (id : DataId)
    → ((a : ℕ) → o ≡ some a → lookup a m ≡ some id)
    → data_id_of m (id_or_alias o id) ≡ got id
unfolding data_id_of id_or_alias
id_resolves none m id h = refl
id_resolves (some a) m id h = ap (or_fail invalid_data_id_alias) (h a refl)

wire_groups_resolve :
    (table : Map DataId ℕ) (m : Map ℕ DataId) (gs : DataPointGroups)
    → Resolved table m
    → groups_of_wire m (written_groups table gs) ≡ got gs
unfolding groups_of_wire written_groups
wire_groups_resolve table m [] h = refl
wire_groups_resolve table m (g ∷ gs) h =
    rw
      (
        id_resolves (lookup g.data_id table) m g.data_id (λ a e. h g.data_id a e),
        wire_groups_resolve table m gs h,
      )
      refl

module _ {Uuid : Type 0} where
  abbrev pub WasSent : List (ChunkAck Uuid) → ℕ → DataId → Type 0
  WasSent [] a id = ⊥
  WasSent (ack ∷ acks) a id = (lookup a ack.ack_data_ids ≡ some id) ⊎ WasSent acks a id

  -- Every alias of the table was in an acknowledgement.
  abbrev pub FromAcks : Map DataId ℕ → List (ChunkAck Uuid) → Type 0
  FromAcks table acks = (id : DataId) (a : ℕ) → lookup id table ≡ some a → WasSent acks a id

  sent-known :
      (acks : List (ChunkAck Uuid)) (m : Map ℕ DataId) (a : ℕ) (id : DataId)
      → AllWithin acks m
      → WasSent acks a id
      → lookup a m ≡ some id
  sent-known [] m a id h w = elim w [ ]
  sent-known (ack ∷ acks) m a id h (inl e) = h.0 a id e
  sent-known (ack ∷ acks) m a id h (inr w) = sent-known acks m a id h.1 w

  -- After any reads and flushes, as long as fewer than 2 ^ 32 data IDs come in full, a chunk in which the server
  -- writes aliases from acknowledgements that the client has sent, for any of the data IDs, is read with
  -- exactly the data IDs and points that the server meant, if its upstream is known.
  pub groups_arrive :
      (d : Downstream Uuid) (es : List (Event Uuid)) (table : Map DataId ℕ) (gs : DataPointGroups)
      (dps : WireChunk Uuid) (info : UpstreamInfo Uuid)
      → Inv d
      → d.data_id_alias_generator.current_alias
          + (ids_in es + length (filter_data_id dps.data_point_groups))
        < 4294967296
      → FromAcks table (run d es).1
      → dps.data_point_groups ≡ written_groups table gs
      → info_of (aliases_given (run d es).0 dps).upstream_infos dps.upstream_or_alias ≡ got info
      → (read_data_points (run d es).0 dps).1
        ≡ got (record {
          chunk_sequence_number = dps.sequence_number;
          chunk_groups = gs;
          upstream_info = info;
          chunk_filter_references = dps.filter_references;
        })
  unfolding read_data_points wire_to_downstream_chunk
  groups_arrive d es table gs dps info v l from e known =
      let (after, acks) = run-Good d es v (omega arith) in
      let given = given-After (run d es).0 dps after.holds (omega (arith, after.few, l)) in
      let m = (aliases_given (run d es).0 dps).data_id_aliases in
      let found : groups_of_wire m dps.data_point_groups ≡ got gs =
        ap (groups_of_wire m) e
        ∙ wire_groups_resolve table m gs
            (λ id a q. given.grows a id (sent-known (run d es).1 _ a id acks (from id a q))) in
      rw (known, found) refl
