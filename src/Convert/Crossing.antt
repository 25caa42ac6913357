-- ===== src/Convert/Crossing.antt =====
-- encoding/convert: what one side sends and the other cannot take.
use iscp_go.Prelude.{ℕ, ◌≡◌, ◌≢◌, Option, none, List, [], ◌∷◌, length, arith}
use iscp_go.Convert.Outcome.{panicked, ◌>>=◌}
use iscp_go.Convert.Messages.{Message, DownstreamChunkAck}
use iscp_go.Convert.Messages.Parts
use iscp_go.Convert.Autogen
use iscp_go.Convert.Outside.{Outside, IsLawful}
use iscp_go.Convert.RoundTrip.Carried.{Each, CarriedDownstreamResult}
use iscp_go.Convert.RoundTrip.Checked.{downstream_results_trip}
use iscp_go.Convert.ToProto.{fields, wire_to_proto}
use iscp_go.Convert.ToProto.Parts.{to_upstream_aliases_proto, to_upstream_info_proto}
use iscp_go.Convert.ToProto.Parts.{to_data_id_aliases_proto, to_empty_fields_proto}
use iscp_go.Convert.ToProto.Data.{downstream_chunk_ack_proto}
use iscp_go.Convert.ToWire.{from_fields, proto_to_wire}
use iscp_go.Convert.ToWire.Parts.{
  to_upstream_aliases, to_upstream_alias, to_upstream_info, must_uuid,
}
use iscp_go.Convert.ToWire.Data.{downstream_chunk_ack_wire}
use iscp_go.Convert.Outcome.{each}

module _ {T P : Type 0} {o : Outside T P} (l : IsLawful o) where
  -- Where the packages outside of the repository do what they document, an acknowledgement of
  -- downstream chunks whose first upstream alias has a nil upstream info, and whose results have
  -- result codes of their own and stream IDs of sixteen bytes, is written, and its reader panics.
  pub nil_info_panics :
      (a : DownstreamChunkAck) (k : ℕ) (rest : List (ℕ × Option Parts.UpstreamInfo))
      → Each CarriedDownstreamResult a.results
      → (wire_to_proto o
            (Message.downstream_chunk_ack (record a { upstream_aliases = (k, none) ∷ rest }))
          >>= proto_to_wire o)
        ≡ panicked
  unfolding wire_to_proto proto_to_wire fields from_fields downstream_chunk_ack_proto
      downstream_chunk_ack_wire to_upstream_aliases_proto to_upstream_info_proto to_upstream_aliases
      to_upstream_alias to_upstream_info must_uuid each
  nil_info_panics a k rest h =
      let (rs, w, r) = downstream_results_trip l a.results h in
      let no_id : ◌≢◌ {A = ℕ} (length {A = ℕ} []) 16 = omega arith in
      let f : Autogen.DownstreamChunkAck = record {
        stream_id_alias = a.stream_id_alias;
        ack_id = a.ack_id;
        results = rs;
        upstream_aliases = to_upstream_aliases_proto ((k, none) ∷ rest);
        data_id_aliases = to_data_id_aliases_proto a.data_id_aliases;
        extension_fields = to_empty_fields_proto a.extension_fields;
      } in
      cc (w, r, l.read-make (Autogen.Message.downstream_chunk_ack f), l.bytes-refused [] no_id)
