-- ===== src/Upstream/Counters.antt =====
-- The counters of the buffer are those of its points and bytes.
use iscp_go.Prelude.{
  ℕ, ◌+◌, ◌<◌, ◌≡◌, refl, inl, inr, List, [], ◌∷◌, ◌++◌, Option, none, some, arith, ◌==◌, nat_eq,
  length, length-append, Map, lookup, insert, Bool-cases,
}
use iscp_go.Ids.{next_sequence}
use iscp_go.Upstream.Data.{
  DataId, data_id_eq, DataPoints, DataPointGroup, DataPointGroups, points_size, payload_size,
}
use iscp_go.Upstream.{
  Upstream, Chunk, or_empty, write_group, flush_valid, validate_state, keep_alias,
}
use iscp_go.Upstream.Run.{Step, write_step, flush_step, result_step, aliases_step}

-- The points and the bytes of a buffer.
unfoldable pub buffer_points : Map DataId DataPoints → ℕ
buffer_points [] = 0
buffer_points ((id, dps) ∷ rest) = length dps + buffer_points rest

unfoldable pub buffer_size : Map DataId DataPoints → ℕ
buffer_size [] = 0
buffer_size ((id, dps) ∷ rest) = points_size dps + buffer_size rest

unfoldable pub group_points_count : DataPointGroups → ℕ
group_points_count [] = 0
group_points_count (g ∷ gs) = length g.data_points + group_points_count gs

unfoldable pub chunks_points : List Chunk → ℕ
chunks_points [] = 0
chunks_points (c ∷ cs) = group_points_count c.groups + chunks_points cs

unfoldable pub written_points : List Step → ℕ
written_points [] = 0
written_points (write_step dpg ∷ steps) = length dpg.data_points + written_points steps
written_points (flush_step ∷ steps) = written_points steps
written_points (result_step n ∷ steps) = written_points steps
written_points (aliases_step aliases ∷ steps) = written_points steps

-- The counters are those of the buffer, and the number and the total fit.
pub record IsSound (u : Upstream) : Type 0 where
  pub points : u.send_buffer_data_points_count ≡ buffer_points u.send_buffer
  pub size : u.send_buffer_payload_size ≡ buffer_size u.send_buffer
  pub total_fits : u.total_data_points < 18446744073709551616
  pub number_fits : u.sequence.current < 4294967296

points_size-append : (xs ys : DataPoints) → points_size (xs ++ ys) ≡ points_size xs + points_size ys
unfolding points_size
points_size-append [] ys = omega arith
points_size-append (x ∷ xs) ys = omega (arith, points_size-append xs ys)

buffer_points-insert :
    (id : DataId) (new : DataPoints) (m : Map DataId DataPoints)
    → buffer_points (insert id new m) + length (or_empty (lookup id m))
      ≡ buffer_points m + length new
unfolding insert lookup buffer_points
buffer_points-insert id new [] = omega arith
buffer_points-insert id new ((j, dps) ∷ m) = elim (Bool-cases (j == id)) [
  | inl e ↦ rw e (omega arith)
  | inr e ↦ rw e (omega (arith, buffer_points-insert id new m))
]

buffer_size-insert :
    (id : DataId) (new : DataPoints) (m : Map DataId DataPoints)
    → buffer_size (insert id new m) + points_size (or_empty (lookup id m))
      ≡ buffer_size m + points_size new
unfolding insert lookup buffer_size points_size
buffer_size-insert id new [] = omega arith
buffer_size-insert id new ((j, dps) ∷ m) = elim (Bool-cases (j == id)) [
  | inl e ↦ rw e (omega arith)
  | inr e ↦ rw e (omega (arith, buffer_size-insert id new m))
]

pub write_points :
    (u : Upstream) (dpg : DataPointGroup)
    → buffer_points (write_group u dpg).send_buffer
      ≡ buffer_points u.send_buffer + length dpg.data_points
unfolding write_group
write_points u dpg =
    let old = or_empty (lookup dpg.data_id u.send_buffer) in
    omega (
      arith,
      buffer_points-insert dpg.data_id (old ++ dpg.data_points) u.send_buffer,
      length-append old dpg.data_points,
    )

write_size :
    (u : Upstream) (dpg : DataPointGroup)
    → buffer_size (write_group u dpg).send_buffer
      ≡ buffer_size u.send_buffer + points_size dpg.data_points
unfolding write_group
write_size u dpg =
    let old = or_empty (lookup dpg.data_id u.send_buffer) in
    omega (
      arith,
      buffer_size-insert dpg.data_id (old ++ dpg.data_points) u.send_buffer,
      points_size-append old dpg.data_points,
    )

pub write-IsSound : (u : Upstream) (dpg : DataPointGroup) → IsSound u → IsSound (write_group u dpg)
unfolding write_group payload_size
write-IsSound u dpg h = record {
  points = omega (arith, h.points, write_points u dpg);
  size = omega (arith, h.size, write_size u dpg);
  total_fits = h.total_fits;
  number_fits = h.number_fits;
}

-- What a call of `flush` that sends a chunk finds.
pub valid_state :
    (u : Upstream)
    → IsSound u
    → buffer_points u.send_buffer < 18446744073709551616
    → validate_state u ≡ none
    → (u.total_data_points + buffer_points u.send_buffer < 18446744073709551616)
      × (u.sequence.current + 1 < 4294967296)
unfolding validate_state
valid_state u h small v = ground (arith, h.points, h.total_fits, h.number_fits)

pub valid-IsSound : (u : Upstream) → IsSound u → IsSound (flush_valid u).0
unfolding flush_valid next_sequence buffer_points buffer_size
valid-IsSound u h = record {
  points = refl;
  size = refl;
  total_fits = omega arith;
  number_fits = omega arith;
}

pub keep_alias-IsSound :
    (o : Option ℕ) (u : Upstream) (a : ℕ) (id : DataId) → IsSound u → IsSound (keep_alias o u a id)
unfolding keep_alias
keep_alias-IsSound none u a id h = record {
  points = h.points;
  size = h.size;
  total_fits = h.total_fits;
  number_fits = h.number_fits;
}
keep_alias-IsSound (some b) u a id h = h
