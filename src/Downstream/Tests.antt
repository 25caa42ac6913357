-- ===== src/Downstream/Tests.antt =====
-- A short run of a downstream, and the theorems at it.
use iscp_go.Prelude.{
  if◌then◌else◌, string_eq, ◌==◌, ℕ, ◌≡◌, refl, List, [], ◌∷◌, ◌++◌, some, true, arith, Map, lookup,
  nat_eq, String, inl, inr, insert, insert_cases, ap, subst,
}
use iscp_go.Ids.{next_alias, next_sequence}
use iscp_go.Upstream.Data.{DataId, data_id_eq, DataPointGroup, by_id, by_alias}
use iscp_go.Wire.Upstreams.{reliable}
use iscp_go.Wire.Downstreams.{Downstreams, no_downstreams}
use iscp_go.Downstream.{
  Downstream, InfoPointer, by_info, has_pointer, put_all, filter_data_id, give_alias,
  assign_data_id_alias, push_data_id_ack_buffer, process_data_points, give_info_alias,
  assign_upstream_info_alias, push_upstream_info_ack_buffer, process_upstream_alias,
  push_result_ack_buffer, is_empty, flush_ack,
}
use iscp_go.Downstream.Reading.{
  WireChunk, got, read_data_points, succeeded, aliases_given, acknowledge, wire_to_downstream_chunk,
  info_of, groups_of_wire, data_id_of,
}
use iscp_go.Downstream.Run.{Event, reads, flushes, run, ids_in}
use iscp_go.Downstream.Aliases.{Inv}
use iscp_go.Downstream.Server.{written_groups, id_or_alias, FromAcks, groups_arrive}
use iscp_go.Downstream.Acks.{reports, all_results, Numbered}
use iscp_go.Downstream.Reported.{acks_report}
use iscp_go.Downstream.Infos.{Gives, info_by_address}
use iscp_go.Downstream.Resume.{
  resume_request_conflict, Answer, answered, subscribe_chunk_failed, not_resumed, resumed, resume,
}
use iscp_go.Downstream.Resume.Conflict.{resume_lem}

abbrev speed : DataId
speed = record { name = "speed"; type_name = "float" }

abbrev fresh : Downstream ℕ
fresh = record {
  id_alias = 1;
  data_id_aliases = [];
  rev_data_id_aliases = [];
  upstream_infos = [];
  data_id_alias_generator = record { current_alias = 0 };
  upstream_info_alias_generator = record { current_alias = 0 };
  upstream_info_ack_buffer = [];
  data_id_ack_buffer = [];
  result_ack_buffer = [];
  chunk_ack_id_sequence = record { current = 0 };
}

abbrev source : InfoPointer ℕ
source = record {
  address = 9000;
  pointee = record { session_id = "s"; source_node_id = "node"; stream_id = 31 };
}

abbrev group : DataPointGroup
group = record { data_id = speed; data_points = record { elapsed_time = 5; payload = 1 ∷ [] } ∷ [] }

abbrev first : WireChunk ℕ
first = record {
  upstream_or_alias = by_info source;
  sequence_number = 1;
  data_point_groups =
      record { data_id_or_alias = by_id speed; group_points = group.data_points } ∷ [];
  filter_references = [];
}

abbrev second : WireChunk ℕ
second = record {
  upstream_or_alias = by_info source;
  sequence_number = 2;
  data_point_groups =
      record { data_id_or_alias = by_alias 1; group_points = group.data_points } ∷ [];
  filter_references = [];
}

abbrev steps : List (Event ℕ)
steps = reads first ∷ flushes ∷ []

acks_report_example :
    (all_results (run fresh steps).1 ++ (run fresh steps).0.result_ack_buffer
      ≡ fresh.result_ack_buffer ++ reports fresh steps)
    × Numbered 0 (run fresh steps).1
acks_report_example = acks_report fresh steps

-- The same information, decoded again.
abbrev source_again : InfoPointer ℕ
source_again = record { address = 9001; pointee = source.pointee }

abbrev one_source : Downstream ℕ
one_source = record fresh {
  upstream_infos = (1, source) ∷ [];
  upstream_info_alias_generator = record { current_alias = 1 };
}

info_by_address_example :
    Gives one_source source_again
    × (lookup 1 (process_upstream_alias one_source (by_info source_again)).upstream_infos
        ≡ some source)
info_by_address_example =
    info_by_address one_source source_again source 1 ((λ q. omega (arith, q)), tt)
      (unfold lookup in refl) refl (omega arith) (omega arith)

abbrev token : String
token = "t"

abbrev none_open : Downstreams ℕ ℕ ℕ ℕ ℕ
none_open = no_downstreams

-- A server that takes the token that it gave before, and one that is busy with the stream.
abbrev takes : String → Answer
takes given = if given == "before" then answered succeeded token else answered 2 ""

abbrev busy : String → Answer
busy given = answered resume_request_conflict ""

resume_example :
    ((u : Downstreams ℕ ℕ ℕ ℕ ℕ) × (resume true true "before" 50 4 reliable
          (1 ∷ 2 ∷ [])
          none_open
          (takes ∷ takes ∷ [])
        ≡ resumed token u)
      × (lookup 50 u.stream_aliases ≡ some 4))
    × ((u : Downstreams ℕ ℕ ℕ ℕ ℕ) × (resume true true "before" 50 4 reliable
            (1 ∷ 2 ∷ [])
            none_open
            (busy ∷ takes ∷ [])
          ≡ not_resumed subscribe_chunk_failed u))
resume_example =
    resume_lem true true "before" 50 4 reliable (1 ∷ 2 ∷ []) none_open token "" takes busy
      (takes ∷ []) (unfold no_downstreams lookup in (refl, refl, refl, refl)) refl refl

sound : Inv fresh
unfolding lookup
sound = record {
  known = λ id a q. cc;
  issued = λ a id q. cc;
  fits = omega arith;
  buffered = λ a id q. cc;
}

-- The server has learnt the alias that the client gave.
abbrev table : Map DataId ℕ
table = insert speed 1 []

learnt : FromAcks table (run fresh steps).1
unfolding run flush_ack read_data_points aliases_given acknowledge process_data_points
    process_upstream_alias assign_data_id_alias filter_data_id give_alias assign_upstream_info_alias
    give_info_alias has_pointer push_data_id_ack_buffer push_upstream_info_ack_buffer
    push_result_ack_buffer put_all insert lookup next_alias next_sequence is_empty
    wire_to_downstream_chunk info_of groups_of_wire data_id_of
learnt id a q = elim (insert_cases speed id 1 a [] q) [
  | inl (p, e) ↦ inl (subst (λ x. lookup x ((1, speed) ∷ []) ≡ some id) e (ap some p))
  | inr (n, old) ↦ absurd (cc)
]

written : second.data_point_groups ≡ written_groups table (group ∷ [])
unfolding written_groups id_or_alias insert lookup
written = refl

groups_arrive_example :
    (read_data_points (run fresh steps).0 second).1
    ≡ got (record {
      chunk_sequence_number = 2;
      chunk_groups = group ∷ [];
      upstream_info = source.pointee;
      chunk_filter_references = [];
    })
groups_arrive_example =
    groups_arrive fresh steps table (group ∷ []) second source.pointee sound
      (unfold ids_in filter_data_id in omega arith) learnt written (unfold info_of in refl)
