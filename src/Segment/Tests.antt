-- ===== src/Segment/Tests.antt =====
-- Two segments that arrive in the wrong order, and the theorems at such inputs.
use mathlib.Core.List.Perm
use iscp_go.Prelude.{
  ℕ, nat_eq, ◌/◌, leb, length-replicate, ◌≡◌, refl, List, [], ◌∷◌, ◌++◌, map, Option, none, some,
  replicate, lookup, arith, range_from, if◌then◌else◌, ltb,
}
use iscp_go.Segment.Sender.{send_to, too_long}
use iscp_go.Segment.Sending.{send_each, send_to-send_each, datagrams, last_index, segment}
use iscp_go.Segment.ReadBuffer.{ReadBuffer, ReadBuffers, or_new}
use iscp_go.Segment.Collect.{Delivers, arrival, receive_all}
use iscp_go.Segment.Reassembly.{reassembly}
use iscp_go.Segment.Faults.{repeats, repeats_deliver, largest_never_delivered}

abbrev no_buffers : ReadBuffers
no_buffers = record { read_buffer = []; read_buffer_expiry = 10 }

abbrev payload : List ℕ
payload = replicate 1188 7 ++ (1 ∷ 2 ∷ 3 ∷ [])

payload_last : last_index payload ≡ 1
unfolding last_index
payload_last = refl

reassembly_example :
    Delivers no_buffers no_buffers 9
      (map (arrival 9 (last_index payload) payload) ((5, 1) ∷ (6, 0) ∷ []))
      (last_index payload)
      payload
unfolding last_index range_from lookup
reassembly_example =
    reassembly no_buffers 9 payload ((5, 1) ∷ (6, 0) ∷ []) (omega arith) (omega arith) refl
      (Perm.swap 0 1 [])

repeats_deliver_example :
    Delivers no_buffers no_buffers 9
      (map (arrival 9 (last_index payload) payload) (repeats 0 (5 ∷ 6 ∷ [])))
      (last_index payload)
      (segment payload 0)
unfolding last_index lookup
repeats_deliver_example =
    repeats_deliver no_buffers 9 payload 0 5 (6 ∷ []) (omega arith) (omega arith) (omega arith) refl
      refl

last_index-replicate : (n a : ℕ) → last_index (replicate n a) ≡ (if leb n 1188 then 0 else n / 1188)
unfolding last_index
last_index-replicate n a = rw (length-replicate n a)

-- 65535 full segments, and an empty one.
huge : List ℕ
huge = replicate 77855580 0

huge_last : last_index huge ≡ 65535
unfolding huge
huge_last = last_index-replicate 77855580 0

-- One datagram of that message.
largest_never_delivered_example :
    (t' : ReadBuffers) × (receive_all no_buffers
        (map (arrival 9 (last_index huge) huge) ((5, 65535) ∷ []))
      ≡ some (t', none ∷ []))
unfolding lookup or_new
largest_never_delivered_example =
    largest_never_delivered no_buffers 9 huge ((5, 65535) ∷ []) (omega arith) huge_last
      (omega arith) refl

abbrev old : ReadBuffer
old = record { seg_count = 0; msg_size = 0; msgs = []; expired_at = 3 }

-- A sender that keeps what it is given.
abbrev keep : List (List ℕ) → List ℕ → List (List ℕ) × Option ℕ
keep sent_so_far d = (sent_so_far ++ (d ∷ []), none)

send_to-send_each_example : send_to keep [] 9 payload ≡ (
    if ltb 65535 (last_index payload)
    then ([], too_long)
    else send_each keep 0 [] (datagrams 9 payload))
send_to-send_each_example = send_to-send_each keep [] 9 payload
