-- ===== src/Segment/Faults.antt =====
-- Where the read buffers and `SendTo` do not fit together.
use iscp_go.Prelude.{
  ℕ, zero, suc, ◌<◌, ◌≤◌, ◌≡◌, refl, sym, ap, subst, ◌∙◌, List, [], ◌∷◌, map, none, some, true,
  arith, nat_eq, length, set, replicate, lookup, insert, lookup-insert, beq_refl, leb,
}
use mathlib.Core.List.{append-nil}
use mathlib.Core.Path.{subst₂}
use iscp_go.Segment.Sending.{segment, last_index}
use iscp_go.Segment.ReadBuffer.{ReadBuffers, ReadBuffer, build, add, store, or_new, receive_segment}
use iscp_go.Segment.Collect.{
  writes, Delivers, InRange, touched, arrival, collect, receive_all, receive_all_step,
  receive-datagram_at,
}
use iscp_go.Segment.Reassembly.{fresh-Partial, length-blank}

-- One segment, at each of the given times.
abbrev pub repeats : ℕ → List ℕ → List (ℕ × ℕ)
repeats i times = map (λ now. (now, i)) times

writes-repeats :
    (seg : ℕ → List ℕ) (msgs : List (List ℕ)) (now i : ℕ) (times : List ℕ)
    → writes seg msgs (repeats i (now ∷ times)) ≡ set msgs i (seg i)
unfolding writes
writes-repeats seg msgs now i [] = refl
writes-repeats seg msgs now i (later ∷ times) =
    writes-repeats seg (set msgs i (seg i)) later i times ∙ set-set msgs i (seg i)
  where
    set-set : (xs : List (List ℕ)) (k : ℕ) (v : List ℕ) → set (set xs k v) k v ≡ set xs k v
    set-set [] k v = refl
    set-set (x ∷ xs) zero v = refl
    set-set (x ∷ xs) (suc k) v = ap (◌∷◌ x) (set-set xs k v)

build-blank : (n : ℕ) → build (replicate n []) ≡ []
unfolding build
build-blank zero = refl
build-blank (suc n) = build-blank n

build-set_blank : (n i : ℕ) (v : List ℕ) → i < n → build (set (replicate n []) i v) ≡ v
unfolding build
build-set_blank zero i v h = elim h [ ]
build-set_blank (suc n) zero v h = rw (build-blank n) (append-nil v)
build-set_blank (suc n) (suc i) v h = build-set_blank n i v (omega arith)

repeats-InRange : (n i : ℕ) (times : List ℕ) → i < n → InRange n (repeats i times)
repeats-InRange n i [] h = tt
repeats-InRange n i (now ∷ times) h = (h, repeats-InRange n i times h)

length-repeats : (i : ℕ) (times : List ℕ) → length (repeats i times) ≡ length times
length-repeats i [] = refl
length-repeats i (now ∷ times) = ap suc (length-repeats i times)

-- The buffer counts arrivals, not segments: if one segment of a message arrives as often as the
-- message has segments, and nothing else does, then the last call delivers that segment alone as the
-- whole message.
pub repeats_deliver :
    (t : ReadBuffers) (seq_num : ℕ) (p : List ℕ) (i now : ℕ) (times : List ℕ)
    → seq_num < 4294967296
    → last_index p < 65535
    → i ≤ last_index p
    → length times ≡ last_index p
    → lookup seq_num t.read_buffer ≡ none
    → Delivers t t seq_num
        (map (arrival seq_num (last_index p) p) (repeats i (now ∷ times)))
        (last_index p)
        (segment p i)
repeats_deliver t seq_num p i now times seq_fits small h total absent =
    subst₂ (Delivers t t seq_num (map (arrival seq_num (last_index p) p) (repeats i (now ∷ times))))
      (length-repeats i times ∙ total)
      (ap build (writes-repeats (segment p) blank now i times)
        ∙ build-set_blank n i (segment p i) (omega arith))
      (collect seq_num (last_index p) p seq_fits (omega arith) t t now i (repeats i times) 0 blank
        (rw (length-blank n) (omega arith))
        (rw (length-blank n) (omega (arith, length-repeats i times)))
        (subst (λ k. InRange k (repeats i (now ∷ times))) (sym (length-blank n))
          (repeats-InRange n i (now ∷ times) (omega arith)))
        (fresh-Partial t seq_num (last_index p) absent small))
  where
    n : ℕ
    n = suc (last_index p)

    blank : List (List ℕ)
    blank = replicate n []

-- The entry of a message whose last index is 65535 has no room for any segment.
abbrev HasNoRoom : ReadBuffers → ℕ → Type 0
HasNoRoom t seq_num = (or_new (lookup seq_num t.read_buffer) 65535).msgs ≡ []

add_no_room : (b : ReadBuffer) (i : ℕ) (bs : List ℕ) → b.msgs ≡ [] → add b i bs ≡ (b, none)
unfolding add
add_no_room b i bs h = rw (leb_no_room (length b.msgs) i (ap length h))
  where
    leb_no_room : (n k : ℕ) → n ≡ 0 → leb n k ≡ true
    leb_no_room n k e = ground arith

-- The buffers after a call that drops its segment.
abbrev after_drop : ReadBuffers → ℕ → ℕ → ReadBuffers
after_drop t now seq_num = record t {
  read_buffer = insert seq_num (touched t now seq_num 65535) t.read_buffer;
}

receive_segment_drop :
    (t : ReadBuffers) (now seq_num i : ℕ) (bs : List ℕ)
    → HasNoRoom t seq_num
    → receive_segment t now seq_num 65535 i bs ≡ (after_drop t now seq_num, none)
unfolding receive_segment store
receive_segment_drop t now seq_num i bs h =
    ap (store t seq_num) (add_no_room (touched t now seq_num 65535) i bs h)

after_drop-HasNoRoom :
    (t : ReadBuffers) (now seq_num : ℕ)
    → HasNoRoom t seq_num
    → HasNoRoom (after_drop t now seq_num) seq_num
unfolding or_new
after_drop-HasNoRoom t now seq_num h = rw (lookup-insert, beq_refl) h

-- Of a message with the largest last index, 65535, which `SendTo` sends, no call of `Receive` delivers
-- anything, whichever of its datagrams arrive and however often, when its sequence number has no entry
-- or has one without room.
pub largest_never_delivered :
    (t : ReadBuffers) (seq_num : ℕ) (p : List ℕ) (arrivals : List (ℕ × ℕ))
    → seq_num < 4294967296
    → last_index p ≡ 65535
    → InRange 65536 arrivals
    → HasNoRoom t seq_num
    → (t' : ReadBuffers) × (receive_all t (map (arrival seq_num (last_index p) p) arrivals)
        ≡ some (t', replicate (length arrivals) none))
unfolding receive_all
largest_never_delivered t seq_num p [] fits last range room = (t, refl)
largest_never_delivered t seq_num p ((now, i) ∷ rest) fits last range room =
    let later =
      largest_never_delivered (after_drop t now seq_num) seq_num p rest fits last range.1
        (after_drop-HasNoRoom t now seq_num room) in
    (
      later.0,
      receive_all_step t (after_drop t now seq_num) later.0 now _
          (map (arrival seq_num (last_index p) p) rest) none _
          (receive-datagram_at seq_num (last_index p) p fits (omega arith) t now i range.0
            ∙ ap some (rw last (receive_segment_drop t now seq_num i (segment p i) room)))
          later.1,
    )
