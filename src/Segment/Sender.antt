-- ===== src/Segment/Sender.antt =====
-- internal/segment/sender.go and package.go. The `Sender` interface is an argument: the state `W`
-- behind it and what `SendDatagram` does with one datagram.
use iscp_go.Prelude.{
  ℕ, zero, suc, ◌+◌, ◌-◌, ◌*◌, ◌/◌, ◌%◌, List, ◌++◌, Option, none, some, leb, ltb, ◌==◌, nat_eq,
  if◌then◌else◌, length, take, drop,
}
use iscp_go.Segment.Format.{put_uint32, put_uint16}

abbrev pub max_datagram_frame_size : ℕ
max_datagram_frame_size = 1196

abbrev pub max_payload_size : ℕ
max_payload_size = max_datagram_frame_size - 8

-- What `SendTo` returns: the bytes sent, the error of the `Sender`, or its own.
pub data Sent (E : Type 0) : Type 0 where
  sent : ℕ → Sent E
  failed : E → Sent E
  too_long : Sent E

-- The buffer that `send` builds.
unfoldable pub datagram : ℕ → ℕ → ℕ → List ℕ → List ℕ
unfolding put_uint32 put_uint16
datagram seq_num seg_idx max_idx msg_payload =
    put_uint32 seq_num ++ (put_uint16 max_idx ++ (put_uint16 seg_idx ++ msg_payload))

-- The payload of one round of the loop.
unfoldable pub round_payload : ℕ → ℕ → List ℕ → List ℕ
round_payload max_seg_idx seg_idx msg_payload =
    let offset = seg_idx * max_payload_size in
    if seg_idx == max_seg_idx
    then drop offset msg_payload
    else take max_payload_size (drop offset msg_payload)

module _ {W E : Type 0} where
  -- What `send` returns after `SendDatagram`.
  unfoldable pub send_result : List ℕ → W × Option E → W × Sent E
  send_result bs (w, some e) = (w, failed e)
  send_result bs (w, none) = (w, sent (length bs))

  -- `if err != nil { return 0, err }`, and what follows.
  unfoldable pub and_then : W × Sent E → (W → ℕ → W × Sent E) → W × Sent E
  and_then (w, sent n) k = k w n
  and_then (w, failed e) k = (w, failed e)
  and_then (w, too_long) k = (w, too_long)

module _ {W E : Type 0} (send_datagram : W → List ℕ → W × Option E) where
  unfoldable pub send : W → ℕ → ℕ → ℕ → List ℕ → W × Sent E
  unfolding send_result
  send w seq_num seg_idx max_idx msg_payload =
      let bs = datagram seq_num seg_idx max_idx msg_payload in send_result bs (send_datagram w bs)

  -- `for segIdx := 0; segIdx <= maxSegIdx; segIdx++`, by the rounds left.
  unfoldable pub send_loop : ℕ → W → ℕ → ℕ → ℕ → List ℕ → ℕ → W × Sent E
  send_loop zero w seq_num max_seg_idx seg_idx msg_payload size = (w, sent size)
  send_loop (suc rounds) w seq_num max_seg_idx seg_idx msg_payload size =
      and_then
        (send w seq_num (seg_idx % 65536) (max_seg_idx % 65536)
          (round_payload max_seg_idx seg_idx msg_payload))
        (λ w' n. send_loop rounds w' seq_num max_seg_idx (suc seg_idx) msg_payload (size + n))

  unfoldable pub send_to : W → ℕ → List ℕ → W × Sent E
  send_to w seq_num msg_payload =
      let max_seg_idx = length msg_payload / max_payload_size in
      if leb (length msg_payload) max_payload_size
      then send w seq_num 0 0 msg_payload
      else if ltb 65535 max_seg_idx
      then (w, too_long)
      else send_loop (suc max_seg_idx) w seq_num max_seg_idx 0 msg_payload 0
