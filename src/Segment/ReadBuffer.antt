-- ===== src/Segment/ReadBuffer.antt =====
-- internal/segment/read_buffer.go. The clock is an argument of the calls that read it.
use iscp_go.Prelude.{
  ℕ, ◌+◌, ◌%◌, List, [], ◌∷◌, ◌++◌, Option, none, some, leb, ltb, ◌==◌, nat_eq, if◌then◌else◌,
  length, set, replicate, Map, lookup, insert, erase,
}
use iscp_go.Segment.Format.{uint32, uint16}

pub record ReadBuffer : Type 0 where
  pub seg_count : ℕ
  pub msg_size : ℕ
  pub msgs : List (List ℕ)
  pub expired_at : ℕ

pub record ReadBuffers : Type 0 where
  pub read_buffer : Map ℕ ReadBuffer
  pub read_buffer_expiry : ℕ

-- The loop of `build`; the capacity of the result is not a part of the value.
unfoldable pub build : List (List ℕ) → List ℕ
build [] = []
build (v ∷ vs) = v ++ build vs

unfoldable pub add : ReadBuffer → ℕ → List ℕ → ReadBuffer × Option (List ℕ)
add b seg_idx bs =
    let b' = record b {
      seg_count = b.seg_count + 1;
      msg_size = b.msg_size + length bs;
      msgs = set b.msgs seg_idx bs;
    } in
    if leb (length b.msgs) seg_idx
    then (b, none)
    else (b', (if length b'.msgs == b'.seg_count then some (build b'.msgs) else none))

-- `make([][]byte, maxSegIdx+1)` counts in uint16.
unfoldable pub new_buffer : ℕ → ReadBuffer
new_buffer max_seg_idx = record {
  seg_count = 0;
  msg_size = 0;
  msgs = replicate ((max_seg_idx + 1) % 65536) [];
  expired_at = 0;
}

unfoldable pub or_new : Option ReadBuffer → ℕ → ReadBuffer
unfolding new_buffer
or_new (some b) max_seg_idx = b
or_new none max_seg_idx = new_buffer max_seg_idx

unfoldable pub store :
    ReadBuffers → ℕ → ReadBuffer × Option (List ℕ) → ReadBuffers × Option (List ℕ)
store t seq_num (b, none) = (record t { read_buffer = insert seq_num b t.read_buffer }, none)
store t seq_num (b, some m) = (record t { read_buffer = erase seq_num t.read_buffer }, some m)

unfoldable pub receive_segment :
    ReadBuffers → ℕ → ℕ → ℕ → ℕ → List ℕ → ReadBuffers × Option (List ℕ)
unfolding or_new store
receive_segment t now seq_num max_seg_idx seg_idx bs =
    let b = or_new (lookup seq_num t.read_buffer) max_seg_idx in
    store t seq_num (add (record b { expired_at = now + t.read_buffer_expiry }) seg_idx bs)

-- `none` is the panic of the slice expressions on fewer than eight bytes.
unfoldable pub receive : ReadBuffers → ℕ → List ℕ → Option (ReadBuffers × Option (List ℕ))
unfolding receive_segment
receive t now (s0 ∷ s1 ∷ s2 ∷ s3 ∷ m0 ∷ m1 ∷ i0 ∷ i1 ∷ bs) =
    some (receive_segment t now (uint32 s0 s1 s2 s3) (uint16 m0 m1) (uint16 i0 i1) bs)
receive t now _ = none

-- The loop of `RemoveExpired`.
unfoldable pub without_expired : ℕ → Map ℕ ReadBuffer → Map ℕ ReadBuffer
without_expired now [] = []
without_expired now ((k, v) ∷ m) =
    let rest = without_expired now m in if ltb v.expired_at now then rest else (k, v) ∷ rest

unfoldable pub remove_expired : ReadBuffers → ℕ → ReadBuffers
unfolding without_expired
remove_expired b now = record b { read_buffer = without_expired now b.read_buffer }
