-- ===== src/Segment/Collect.antt =====
-- One read buffer while the segments of a message arrive, in any order.
use iscp_go.Prelude.{
  ℕ, suc, ◌+◌, ◌<◌, ◌≡◌, refl, sym, ap, subst, ◌∙◌, List, [], ◌∷◌, ◌++◌, map, Option, none, some,
  false, arith, ◌==◌, nat_eq, if◌then◌else◌, length, set, replicate, lookup, insert, erase,
  lookup-insert, lookup-erase, length-set, beq_refl,
}
use mathlib.Core.Option
use iscp_go.Segment.Format.{uint32-put_uint32, uint16-put_uint16}
use iscp_go.Segment.Sender.{datagram}
use iscp_go.Segment.Sending.{segment, datagram_at}
use iscp_go.Segment.ReadBuffer.{
  ReadBuffer, ReadBuffers, build, add, or_new, store, receive_segment, receive,
}

-- The segments that are stored once those at the given indices have arrived.
unfoldable pub writes : (ℕ → List ℕ) → List (List ℕ) → List (ℕ × ℕ) → List (List ℕ)
writes seg msgs [] = msgs
writes seg msgs ((now, i) ∷ rest) = writes seg (set msgs i (seg i)) rest

-- `t` differs from `t0` in the entry of one message, which holds `count` segments, `msgs`.
pub record Partial (t0 t : ReadBuffers) (seq_num max_idx count : ℕ) (msgs : List (List ℕ))
    : Type 0 where
  pub counted : (or_new (lookup seq_num t.read_buffer) max_idx).seg_count ≡ count
  pub held : (or_new (lookup seq_num t.read_buffer) max_idx).msgs ≡ msgs
  pub others : (k : ℕ) → (seq_num == k) ≡ false → lookup k t.read_buffer ≡ lookup k t0.read_buffer
  pub same_expiry : t.read_buffer_expiry ≡ t0.read_buffer_expiry

-- The buffer after `add` has stored a segment.
abbrev stored : ReadBuffer → ℕ → List ℕ → ReadBuffer
stored b i bs = record b {
  seg_count = b.seg_count + 1;
  msg_size = b.msg_size + length bs;
  msgs = set b.msgs i bs;
}

module _ (b : ReadBuffer) (i : ℕ) (bs : List ℕ) (inside : i < length b.msgs) where
  add_more : b.seg_count + 1 < length b.msgs → add b i bs ≡ (stored b i bs, none)
  unfolding add
  add_more h = ground (arith, length-set b.msgs i bs)

  add_last :
      b.seg_count + 1 ≡ length b.msgs → add b i bs ≡ (stored b i bs, some (build (set b.msgs i bs)))
  unfolding add
  add_last h = ground (arith, length-set b.msgs i bs)

-- The entry that a call finds or makes, with its new expiry.
abbrev pub touched : ReadBuffers → ℕ → ℕ → ℕ → ReadBuffer
touched t now seq_num max_idx = record (or_new (lookup seq_num t.read_buffer) max_idx) {
  expired_at = now + t.read_buffer_expiry;
}

-- The buffers after a call that stores a segment and delivers nothing.
abbrev after_more : ReadBuffers → ℕ → ℕ → ℕ → ℕ → List ℕ → ReadBuffers
after_more t now seq_num max_idx i bs = record t {
  read_buffer = insert seq_num (stored (touched t now seq_num max_idx) i bs) t.read_buffer;
}

module _ (t0 t : ReadBuffers) (now seq_num max_idx i count : ℕ) (msgs : List (List ℕ))
    (bs : List ℕ) where
  receive_segment_more :
      i < length msgs
      → suc count < length msgs
      → Partial t0 t seq_num max_idx count msgs
      → receive_segment t now seq_num max_idx i bs ≡ (after_more t now seq_num max_idx i bs, none)
  unfolding receive_segment store
  receive_segment_more h l p = ap (store t seq_num) (
      add_more (touched t now seq_num max_idx) i bs (rw p.held h)
        (rw (p.held, p.counted) (omega arith)))

  receive_segment_last :
      i < length msgs
      → suc count ≡ length msgs
      → Partial t0 t seq_num max_idx count msgs
      → receive_segment t now seq_num max_idx i bs
        ≡ (record t { read_buffer = erase seq_num t.read_buffer }, some (build (set msgs i bs)))
  unfolding receive_segment store
  receive_segment_last h l p = rw (
    add_last (touched t now seq_num max_idx) i bs (rw p.held h)
        (rw (p.held, p.counted) (omega arith)),
    store,
    p.held,
  )

  stored-Partial :
      Partial t0 t seq_num max_idx count msgs
      → Partial t0
          (after_more t now seq_num max_idx i bs)
          seq_num
          max_idx
          (suc count)
          (set msgs i bs)
  unfolding or_new
  stored-Partial p = record {
    counted = rw (lookup-insert, beq_refl) (omega (arith, p.counted));
    held = rw (lookup-insert, beq_refl) (rw p.held);
    others = λ k e. rw (lookup-insert, e) (p.others k e);
    same_expiry = p.same_expiry;
  }

-- The datagrams, each with the time of its arrival, and what each call returns.
unfoldable pub receive_all :
    ReadBuffers → List (ℕ × List ℕ) → Option (ReadBuffers × List (Option (List ℕ)))
receive_all t [] = some (t, [])
receive_all t ((now, bs) ∷ rest) = elim (receive t now bs) [
  | none ↦ none
  | some (t', m) ↦ Option.map (λ r. (r.0, m ∷ r.1)) (receive_all t' rest)
]

pub receive_all_step :
    (t t' t'' : ReadBuffers) (now : ℕ) (bs : List ℕ) (rest : List (ℕ × List ℕ))
    (m : Option (List ℕ)) (ms : List (Option (List ℕ)))
    → receive t now bs ≡ some (t', m)
    → receive_all t' rest ≡ some (t'', ms)
    → receive_all t ((now, bs) ∷ rest) ≡ some (t'', m ∷ ms)
unfolding receive_all
receive_all_step t t' t'' now bs rest m ms e f =
    rw (e, receive_all) (ap (Option.map (λ r. (r.0, m ∷ r.1))) f)

-- The calls deliver nothing but `m`, at the last; then the message has no entry, and every other
-- entry is as it was.
abbrev pub Delivers : ReadBuffers → ReadBuffers → ℕ → List (ℕ × List ℕ) → ℕ → List ℕ → Type 0
Delivers t0 t seq_num inputs before m =
    (t' : ReadBuffers) × (receive_all t inputs ≡ some (t', replicate before none ++ (some m ∷ [])))
    × ((k : ℕ) → lookup k t'.read_buffer ≡ (if seq_num == k then none else lookup k t0.read_buffer))
    × (t'.read_buffer_expiry ≡ t0.read_buffer_expiry)

delivered :
    (t0 t : ReadBuffers) (seq_num max_idx count : ℕ) (msgs : List (List ℕ))
    → Partial t0 t seq_num max_idx count msgs
    → (k : ℕ)
    → lookup k (erase seq_num t.read_buffer)
      ≡ (if seq_num == k then none else lookup k t0.read_buffer)
delivered t0 t seq_num max_idx count msgs h k =
    lookup-erase seq_num k t.read_buffer ∙ ground (arith, h.others k)

-- An arrival: a time, and the index of the segment that arrives.
abbrev pub arrival : ℕ → ℕ → List ℕ → ℕ × ℕ → ℕ × List ℕ
arrival seq_num max_idx p (now, i) = (now, datagram_at seq_num max_idx p i)

abbrev pub InRange : ℕ → List (ℕ × ℕ) → Type 0
InRange n [] = Unit {0}
InRange n ((now, i) ∷ rest) = (i < n) × InRange n rest

module _ (seq_num max_idx : ℕ) (p : List ℕ) (seq_fits : seq_num < 4294967296)
    (max_fits : max_idx < 65536) where
  pub receive-datagram_at :
      (t : ReadBuffers) (now i : ℕ)
      → i < 65536
      → receive t now (datagram_at seq_num max_idx p i)
        ≡ some (receive_segment t now seq_num max_idx i (segment p i))
  unfolding datagram_at datagram receive
  receive-datagram_at t now i h = rw (
    uint32-put_uint32 seq_num seq_fits,
    uint16-put_uint16 max_idx max_fits,
    uint16-put_uint16 i h,
  )

  pub collect :
      (t0 t : ReadBuffers) (now i : ℕ) (rest : List (ℕ × ℕ)) (count : ℕ) (msgs : List (List ℕ))
      → length msgs < 65537
      → suc (count + length rest) ≡ length msgs
      → InRange (length msgs) ((now, i) ∷ rest)
      → Partial t0 t seq_num max_idx count msgs
      → Delivers t0 t seq_num
          (map (arrival seq_num max_idx p) ((now, i) ∷ rest))
          (length rest)
          (build (writes (segment p) msgs ((now, i) ∷ rest)))
  unfolding receive_all writes
  collect t0 t now i [] count msgs small total range h = (
    _,
    receive_all_step t _ _ now _ [] _ []
        (receive-datagram_at t now i (omega arith)
          ∙ ap some (
              receive_segment_last t0 t now seq_num max_idx i count msgs (segment p i) range.0
                (omega arith) h))
        refl,
    delivered t0 t seq_num max_idx count msgs h,
    h.same_expiry,
  )
  collect t0 t now i ((now', j) ∷ rest) count msgs small total range h =
      let later =
        collect t0 (after_more t now seq_num max_idx i (segment p i)) now' j rest (suc count)
          (set msgs i (segment p i)) (rw (length-set msgs i (segment p i)) small)
          (rw (length-set msgs i (segment p i)) (omega arith))
          (subst (λ n. InRange n ((now', j) ∷ rest)) (sym (length-set msgs i (segment p i)))
            range.1)
          (stored-Partial t0 t now seq_num max_idx i count msgs (segment p i) h) in
      (
        later.0,
        receive_all_step t _ _ now _ (map (arrival seq_num max_idx p) ((now', j) ∷ rest)) _ _
            (receive-datagram_at t now i (omega arith)
              ∙ ap some (
                  receive_segment_more t0 t now seq_num max_idx i count msgs (segment p i) range.0
                    (omega arith) h))
            later.1,
        later.2,
        later.3,
      )
