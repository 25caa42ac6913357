-- ===== src/Convert/RoundTrip/Parts.antt =====
-- The parts that no error can interrupt: written and read back.
use iscp_go.Prelude.{ℕ, ◌*◌, ◌^◌, ◌<◌, ◌≡◌, refl, ap, Option, none, some, List, [], ◌∷◌}
use iscp_go.Prelude.{map, arith}
use iscp_go.Convert.Messages.Parts
use iscp_go.Convert.RoundTrip.Carried.{Each, OrNil, Present, CarriedReferences, Something}
use iscp_go.Convert.ToProto.Parts.{to_data_id_proto, to_data_id_aliases_proto}
use iscp_go.Convert.ToProto.Parts.{to_data_ids_proto, to_data_point_proto}
use iscp_go.Convert.ToProto.Parts.{to_data_points_proto, to_data_filter_proto}
use iscp_go.Convert.ToProto.Parts.{to_downstream_filter_proto, to_downstream_filters_proto}
use iscp_go.Convert.ToProto.Parts.{to_empty_fields_proto}
use iscp_go.Convert.ToProto.Parts.{to_upstream_open_request_extension_fields_proto}
use iscp_go.Convert.ToProto.Parts.{to_upstream_close_request_extension_fields_proto}
use iscp_go.Convert.ToProto.Parts.{to_upstream_metadata_extension_fields_proto}
use iscp_go.Convert.ToProto.Parts.{references_proto, to_downstream_filter_references_proto}
use iscp_go.Convert.ToWire.Parts.{from_seconds, from_milliseconds, to_data_id, to_data_ids}
use iscp_go.Convert.ToWire.Parts.{to_data_id_aliases, to_data_filter, to_downstream_filter}
use iscp_go.Convert.ToWire.Parts.{to_downstream_filters, to_data_point, to_data_points}
use iscp_go.Convert.ToWire.Parts.{to_empty_fields, to_upstream_open_request_extension_fields}
use iscp_go.Convert.ToWire.Parts.{to_upstream_close_request_extension_fields}
use iscp_go.Convert.ToWire.Parts.{to_upstream_metadata_extension_fields, references_wire}
use iscp_go.Convert.ToWire.Parts.{reference_groups_wire, to_downstream_filter_references_wire}

pub map_trip {ℓ κ} :
    {A : Type ℓ} {B : Type κ} (f : A → B) (g : B → A)
    → ((x : A) → g (f x) ≡ x)
    → (l : List A) → map g (map f l) ≡ l
map_trip f g h [] = refl
map_trip f g h (x ∷ xs) = cc (h x, map_trip f g h xs)

pub ids_trip : (l : List Parts.DataId) → to_data_ids (to_data_ids_proto l) ≡ l
unfolding to_data_ids to_data_ids_proto to_data_id to_data_id_proto
ids_trip l = map_trip to_data_id_proto to_data_id (λ x. refl) l

pub aliases_trip :
    (l : List (ℕ × Parts.DataId)) → to_data_id_aliases (to_data_id_aliases_proto l) ≡ l
unfolding to_data_id_aliases to_data_id_aliases_proto to_data_id to_data_id_proto
aliases_trip l = map_trip _ _ (λ x. refl) l

pub points_trip : (l : List Parts.DataPoint) → to_data_points (to_data_points_proto l) ≡ l
unfolding to_data_points to_data_points_proto to_data_point to_data_point_proto
points_trip l = map_trip to_data_point_proto to_data_point (λ x. refl) l

filter_trip : (x : Parts.DownstreamFilter) → to_downstream_filter (to_downstream_filter_proto x) ≡ x
unfolding to_downstream_filter to_downstream_filter_proto to_data_filter to_data_filter_proto
filter_trip x =
    ap (λ l. record { source_node_id = x.source_node_id; data_filters = l })
      (map_trip to_data_filter_proto to_data_filter (λ y. refl) x.data_filters)

pub filters_trip :
    (l : List Parts.DownstreamFilter) → to_downstream_filters (to_downstream_filters_proto l) ≡ l
unfolding to_downstream_filters to_downstream_filters_proto
filters_trip l = map_trip to_downstream_filter_proto to_downstream_filter filter_trip l

pub empty_trip : (e : Option Parts.EmptyFields) → to_empty_fields (to_empty_fields_proto e) ≡ e
unfolding to_empty_fields to_empty_fields_proto
empty_trip none = refl
empty_trip (some e) = refl

pub open_fields_trip :
    (e : Option Parts.UpstreamOpenRequestExtensionFields)
    → to_upstream_open_request_extension_fields (to_upstream_open_request_extension_fields_proto e)
      ≡ e
unfolding to_upstream_open_request_extension_fields to_upstream_open_request_extension_fields_proto
open_fields_trip none = refl
open_fields_trip (some e) = refl

pub close_fields_trip :
    (e : Option Parts.UpstreamCloseRequestExtensionFields)
    → to_upstream_close_request_extension_fields
        (to_upstream_close_request_extension_fields_proto e)
      ≡ e
unfolding to_upstream_close_request_extension_fields
    to_upstream_close_request_extension_fields_proto
close_fields_trip none = refl
close_fields_trip (some e) = refl

pub metadata_fields_trip :
    (e : Option Parts.UpstreamMetadataExtensionFields)
    → to_upstream_metadata_extension_fields (to_upstream_metadata_extension_fields_proto e) ≡ e
unfolding to_upstream_metadata_extension_fields to_upstream_metadata_extension_fields_proto
metadata_fields_trip none = refl
metadata_fields_trip (some e) = refl

-- References and groups without nil entries are kept one for one.
references_trip :
    (vs : List (Option Parts.DownstreamFilterReference))
    → Each (Present Something) vs
    → references_wire (references_proto vs) ≡ vs
unfolding references_wire references_proto
references_trip [] h = refl
references_trip (none ∷ vs) h = elim h.0 [ ]
references_trip (some v ∷ vs) h = ap (λ l. some v ∷ l) (references_trip vs h.1)

groups_trip :
    (groups : List (List (Option Parts.DownstreamFilterReference)))
    → CarriedReferences groups
    → reference_groups_wire
        (map (λ group. some (record { references = references_proto group })) groups)
      ≡ groups
unfolding reference_groups_wire
groups_trip [] h = refl
groups_trip (g ∷ gs) h = cc (references_trip g h.0, groups_trip gs h.1)

pub filter_references_trip :
    (r : Option (List (List (Option Parts.DownstreamFilterReference))))
    → OrNil CarriedReferences r
    → to_downstream_filter_references_wire (to_downstream_filter_references_proto r) ≡ r
unfolding to_downstream_filter_references_wire to_downstream_filter_references_proto
filter_references_trip none h = refl
filter_references_trip (some groups) h = ap some (groups_trip groups h)

pub from_seconds-whole : (n : ℕ) → n < 2 ^ 32 → from_seconds n ≡ n * 1_000_000_000
unfolding from_seconds
from_seconds-whole n h = omega arith

pub from_milliseconds-whole : (n : ℕ) → n < 2 ^ 32 → from_milliseconds n ≡ n * 1_000_000
unfolding from_milliseconds
from_milliseconds-whole n h = omega arith
