-- ===== src/Segment/Sending.antt =====
-- What `SendTo` sends, described without its loop.
use iscp_go.Prelude.{
  ℕ, zero, suc, ◌+◌, ◌*◌, ◌/◌, ◌<◌, ◌≤◌, ◌≡◌, refl, sym, ap, inl, inr, List, [], ◌∷◌, map, Option,
  true, false, arith, leb, ltb, ◌==◌, nat_eq, if◌then◌else◌, length, take, drop, take-length_le,
  length-drop, range_from, Bool-cases, leb→le, ltb→le,
}
use mathlib.Core.Path.{fun_ext}
use native.Mathlib.Nat.{mod-eq_of_lt, zero-add}
use iscp_go.Segment.Sender.{
  Sent, sent, failed, too_long, max_payload_size, datagram, send_result, and_then, send,
  round_payload, send_loop, send_to,
}

-- The index of the last segment of a payload.
unfoldable pub last_index : List ℕ → ℕ
last_index p = if leb (length p) max_payload_size then 0 else length p / max_payload_size

-- The bytes of the segment at an index.
unfoldable pub segment : List ℕ → ℕ → List ℕ
segment p i = take max_payload_size (drop (i * max_payload_size) p)

unfoldable pub datagram_at : ℕ → ℕ → List ℕ → ℕ → List ℕ
datagram_at seq_num max_idx p i = datagram seq_num i max_idx (segment p i)

unfoldable pub datagrams : ℕ → List ℕ → List (List ℕ)
datagrams seq_num p = map (datagram_at seq_num (last_index p) p) (range_from 0 (suc (last_index p)))

round_payload-segment :
    (p : List ℕ) (i : ℕ) → round_payload (length p / max_payload_size) i p ≡ segment p i
unfolding round_payload segment
round_payload-segment p i = elim (Bool-cases (i == length p / max_payload_size)) [
  | inl e ↦ rw e (sym (take-length_le 1188 (drop (i * 1188) p) (short e)))
  | inr e ↦ rw e
]
  where
    short : (i == length p / max_payload_size) ≡ true → length (drop (i * 1188) p) ≤ 1188
    short e = rw (length-drop (i * 1188) p) (ground arith)

pub last_index_short : (p : List ℕ) → leb (length p) max_payload_size ≡ true → last_index p ≡ 0
unfolding last_index
last_index_short p e = rw e

pub last_index_long :
    (p : List ℕ)
    → leb (length p) max_payload_size ≡ false
    → last_index p ≡ length p / max_payload_size
unfolding last_index
last_index_long p e = rw e

segment_short : (p : List ℕ) → leb (length p) max_payload_size ≡ true → segment p 0 ≡ p
unfolding segment
segment_short p e = take-length_le 1188 p (leb→le _ _ e)

datagrams_short :
    (seq_num : ℕ) (p : List ℕ)
    → leb (length p) max_payload_size ≡ true
    → datagrams seq_num p ≡ datagram seq_num 0 0 p ∷ []
unfolding datagrams datagram_at range_from
datagrams_short seq_num p e = rw (last_index_short p e, segment_short p e)

and_then_sent : {W E : Type 0} (r : W × Sent E) → and_then r (λ w n. (w, sent (0 + n))) ≡ r
unfolding and_then
and_then_sent (w, sent n) = rw zero-add
and_then_sent (w, failed e) = refl
and_then_sent (w, too_long) = refl

module _ {W E : Type 0} (send_datagram : W → List ℕ → W × Option E) where
  -- One datagram after the other, up to the first error, and the bytes sent.
  unfoldable pub send_each : ℕ → W → List (List ℕ) → W × Sent E
  send_each size w [] = (w, sent size)
  send_each size w (d ∷ ds) =
      and_then (send_result d (send_datagram w d)) (λ w' n. send_each (size + n) w' ds)

  send_loop-send_each :
      (rounds : ℕ) (w : W) (seq_num i : ℕ) (p : List ℕ) (size : ℕ)
      → i + rounds ≡ suc (length p / max_payload_size)
      → length p / max_payload_size < 65536
      → send_loop send_datagram rounds w seq_num (length p / max_payload_size) i p size
        ≡ send_each size w
            (map (datagram_at seq_num (length p / max_payload_size) p) (range_from i rounds))
  unfolding send_loop send_each send range_from datagram_at
  send_loop-send_each zero w seq_num i p size h l = refl
  send_loop-send_each (suc rounds) w seq_num i p size h l =
      rw
        (
          mod-eq_of_lt {n = i} {m = 65536} (omega arith),
          mod-eq_of_lt {n = length p / max_payload_size} {m = 65536} l,
          round_payload-segment p i,
        )
        (ap (and_then _) (
          fun_ext λ w'.
            fun_ext
              λ n. send_loop-send_each rounds w' seq_num (suc i) p (size + n) (omega arith) l))

  send_each_one : (w : W) (d : List ℕ) → send_result d (send_datagram w d) ≡ send_each 0 w (d ∷ [])
  unfolding send_each
  send_each_one w d = sym (and_then_sent (send_result d (send_datagram w d)))

  send_long :
      (w : W) (seq_num : ℕ) (p : List ℕ)
      → leb (length p) max_payload_size ≡ false
      → ltb 65535 (length p / max_payload_size) ≡ false
      → send_loop send_datagram
          (suc (length p / max_payload_size))
          w
          seq_num
          (length p / max_payload_size)
          0
          p
          0
        ≡ send_each 0 w (datagrams seq_num p)
  unfolding datagrams
  send_long w seq_num p e f = rw (last_index_long p e) (
      send_loop-send_each (suc (length p / max_payload_size)) w seq_num 0 p 0 (omega arith)
        (omega (arith, ltb→le 65535 (length p / max_payload_size) f)))

  -- `SendTo` refuses a message whose last index passes 65535, before it sends anything; any other
  -- message goes out as its datagrams, one for each stretch of 1188 bytes and with one header each, in
  -- order, up to the first error of the sender, and the result is the number of bytes sent.
  pub send_to-send_each :
      (w : W) (seq_num : ℕ) (p : List ℕ)
      → send_to send_datagram w seq_num p
        ≡ (if ltb 65535 (last_index p) then (w, too_long) else send_each 0 w (datagrams seq_num p))
  unfolding send_to send
  send_to-send_each w seq_num p = elim (Bool-cases (leb (length p) 1188)) [
    | inl e ↦
        rw (e, last_index_short p e, datagrams_short seq_num p e)
          (send_each_one w (datagram seq_num 0 0 p))
    | inr e ↦
        rw (e, last_index_long p e)
          (elim (Bool-cases (ltb 65535 (length p / max_payload_size))) [
            | inl f ↦ rw f
            | inr f ↦ rw f (send_long w seq_num p e f)
          ])
  ]
