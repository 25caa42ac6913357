-- ===== src/Upstream.antt =====
-- iscp/upstream.go: the state of an upstream, and the calls that change it under its mutex. The channels
-- are left out: `flushLoop`, `readResultLoop` and `readAliasLoop` make these calls one at a time, in an order
-- that a list gives. `upstreamChunkResultChs` is the list of the numbers of those who wait, each on a
-- channel of its own with room for its one result. Sizes and counts of the buffer are ints, taken not to
-- overflow.
pub mod Data
pub mod Run
pub mod Flush
pub mod Messages
pub mod Delivery
pub mod Counters
pub mod Numbers
pub mod Aliases
pub mod Sent
mod Tests
use iscp_go.Prelude.{
  ℕ, ◌+◌, ◌%◌, List, [], ◌∷◌, ◌++◌, Option, none, some, Bool, true, false, ltb, ◌==◌, nat_eq,
  string_eq, if◌then◌else◌, length, Map, lookup, insert, erase,
}
use iscp_go.Ids.{SequenceNumberGenerator, next_sequence}
use Data.{
  DataId, data_id_eq, DataPoint, DataPoints, DataPointGroup, DataPointGroups, payload_size,
  without_payload, MessageGroup, to_upstream_data_point_groups,
}

pub record Upstream : Type 0 where
  pub rev_data_id_aliases : Map DataId ℕ
  pub data_id_aliases : Map ℕ DataId
  pub total_data_points : ℕ
  pub send_buffer : Map DataId DataPoints
  pub send_buffer_payload_size : ℕ
  pub send_buffer_data_points_count : ℕ
  pub id_alias : ℕ
  pub sent_buf : Map ℕ DataPointGroups
  pub keep_payload : Bool
  pub sequence : SequenceNumberGenerator
  pub waiting_results : Map ℕ Bool

-- message.UpstreamChunk
pub record MessageChunk : Type 0 where
  pub stream_id_alias : ℕ
  pub data_ids : List DataId
  pub sequence_number : ℕ
  pub message_groups : List MessageGroup

-- UpstreamChunk
pub record Chunk : Type 0 where
  pub number : ℕ
  pub groups : DataPointGroups

-- The policies of iscp/flush_policy.go; a size is converted to uint32.
pub data FlushPolicy : Type 0 where
  flush_none interval_only immediately : FlushPolicy
  buffer_size_only interval_or_buffer_size : ℕ → FlushPolicy

abbrev pub is_flush : FlushPolicy → ℕ → Bool
is_flush flush_none size = false
is_flush interval_only size = false
is_flush immediately size = true
is_flush (buffer_size_only buffer_size) size = ltb buffer_size (size % 4294967296)
is_flush (interval_or_buffer_size buffer_size) size = ltb buffer_size (size % 4294967296)

abbrev pub or_empty : Option DataPoints → DataPoints
or_empty none = []
or_empty (some dps) = dps

-- The case of `flushLoop` for a group, up to the question whether to flush.
unfoldable pub write_group : Upstream → DataPointGroup → Upstream
write_group u dpg = record u {
  send_buffer =
      insert dpg.data_id (or_empty (lookup dpg.data_id u.send_buffer) ++ dpg.data_points)
        u.send_buffer;
  send_buffer_payload_size = u.send_buffer_payload_size + payload_size dpg;
  send_buffer_data_points_count = u.send_buffer_data_points_count + length dpg.data_points;
}

pub data InvalidState : Type 0 where
  total_exceeded sequence_exceeded : InvalidState

unfoldable pub validate_state : Upstream → Option InvalidState
validate_state u =
    let new_val = (u.total_data_points + u.send_buffer_data_points_count) % 18446744073709551616 in
    if ltb new_val u.total_data_points
    then some total_exceeded
    else if u.sequence.current == 4294967295
    then some sequence_exceeded
    else none

-- The groups of the buffer, in the order of the iteration.
unfoldable pub groups_of : Map DataId DataPoints → DataPointGroups
groups_of [] = []
groups_of ((id, dps) ∷ rest) = record { data_id = id; data_points = dps } ∷ groups_of rest

unfoldable pub to_upstream_chunk : Upstream → Upstream × (MessageChunk × Chunk)
unfolding groups_of
to_upstream_chunk u =
    let dpgs = groups_of u.send_buffer in
    let converted = to_upstream_data_point_groups dpgs u.rev_data_id_aliases in
    let (sequence', n) = next_sequence u.sequence in
    (
      record u { sequence = sequence' },
      (
        record {
          stream_id_alias = u.id_alias;
          data_ids = converted.res_ids;
          sequence_number = n;
          message_groups = converted.res;
        },
        record { number = n; groups = dpgs },
      ),
    )

unfoldable pub clear_buffer : Upstream → Upstream
clear_buffer u = record u {
  send_buffer = [];
  send_buffer_payload_size = 0;
  send_buffer_data_points_count = 0;
}

unfoldable pub store_sent : Upstream → ℕ → DataPointGroups → Upstream
store_sent u seq_num dpgs = record u {
  sent_buf = insert seq_num (if u.keep_payload then dpgs else without_payload dpgs) u.sent_buf;
}

unfoldable pub remove_sent : Upstream → ℕ → Upstream
remove_sent u seq_num = record u { sent_buf = erase seq_num u.sent_buf }

unfoldable pub clear_sent : Upstream → Upstream
clear_sent u = record u { sent_buf = [] }

-- What `flush` does: nothing, close the stream, or send a chunk.
pub data Flushed : Type 0 where
  empty_buffer : Flushed
  refused : InvalidState → Flushed
  chunk_sent : MessageChunk → Chunk → Flushed

unfoldable pub flush_valid : Upstream → Upstream × Flushed
unfolding to_upstream_chunk clear_buffer store_sent
flush_valid u =
    let counted : Upstream = record u {
      total_data_points =
          (u.total_data_points + u.send_buffer_data_points_count) % 18446744073709551616;
    } in
    let (u', (msg_chunk, chunk)) = to_upstream_chunk counted in
    let stored = store_sent (clear_buffer u') msg_chunk.sequence_number chunk.groups in
    (
      record stored {
        waiting_results = insert msg_chunk.sequence_number true stored.waiting_results;
      },
      chunk_sent msg_chunk chunk,
    )

unfoldable pub flush_checked : Option InvalidState → Upstream → Upstream × Flushed
unfolding flush_valid
flush_checked (some e) u = (u, refused e)
flush_checked none u = flush_valid u

unfoldable pub flush : Upstream → Upstream × Flushed
unfolding flush_checked
flush u =
    if length u.send_buffer == 0 then (u, empty_buffer) else flush_checked (validate_state u) u

-- One round of the loop, by what `revDataIDAliases` holds for the data ID.
unfoldable pub keep_alias : Option ℕ → Upstream → ℕ → DataId → Upstream
keep_alias (some b) u a id = u
keep_alias none u a id = record u {
  rev_data_id_aliases = insert id a u.rev_data_id_aliases;
  data_id_aliases = insert a id u.data_id_aliases;
}

unfoldable pub process_data_id_aliases : Upstream → Map ℕ DataId → Upstream
process_data_id_aliases u [] = u
process_data_id_aliases u ((a, id) ∷ rest) =
    process_data_id_aliases (keep_alias (lookup id u.rev_data_id_aliases) u a id) rest

-- From the look into `upstreamChunkResultChs` on.
unfoldable pub deliver_result : Option Bool → Upstream → ℕ → Upstream × Bool
deliver_result none u seq_num = (u, false)
deliver_result (some b) u seq_num =
    (record u { waiting_results = erase seq_num u.waiting_results }, true)

-- The new state, and whether the result goes to one who waits.
unfoldable pub process_result : Upstream → ℕ → Upstream × Bool
unfolding remove_sent deliver_result
process_result u seq_num =
    deliver_result (lookup seq_num u.waiting_results) (remove_sent u seq_num) seq_num
