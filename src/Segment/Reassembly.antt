-- ===== src/Segment/Reassembly.antt =====
-- A message comes out of the read buffers as it went into `SendTo`, whatever the order in which its
-- datagrams arrive.
use mathlib.Core.Logic.{∥∥₁_elim}
use mathlib.Core.Logic.Or
use mathlib.Core.Path.{subst₂}
use native.Mathlib.Bridge.{le_prop}
use mathlib.Core.List.{
  Mem, Perm, Memᴰ, Permᴰ, mem-cons_self, mem-cons_of_mem, eq-or-mem_of_mem-cons, not-mem-nil,
}
use mathlib.Core.List.Perm
use native.Mathlib.Nat.{ℕ_set, zero-add}
use iscp_go.Prelude.{
  ℕ, zero, suc, ◌+◌, ◌*◌, ◌%◌, ◌<◌, ◌≤◌, ◌≡◌, refl, sym, ap, subst, ◌∙◌, inl, inr, List, [], ◌∷◌,
  ◌++◌, map, none, Bool, true, false, ◌||◌, arith, leb, ◌==◌, nat_eq, if◌then◌else◌, length, set,
  get_or, replicate, take, drop, lookup, Bool-cases, length-set, get_or-set_self, get_or-set_ne,
  range_from, length-range_from, eq_of_get_or, take-length_le, drop-drop, take-append-take-drop,
  length-replicate, leb→le, nat_beq_iff,
}
use iscp_go.Segment.Sender.{max_payload_size}
use iscp_go.Segment.Sending.{segment, last_index, last_index_long}
use iscp_go.Segment.ReadBuffer.{ReadBuffers, build, or_new, new_buffer}
use iscp_go.Segment.Collect.{writes, Partial, Delivers, InRange, arrival, collect}

-- Whether the segment at index `j` has arrived.
arrived : ℕ → List (ℕ × ℕ) → Bool
arrived j [] = false
arrived j ((now, i) ∷ rest) = (i == j) || arrived j rest

if_same {ℓ} : {A : Type ℓ} (b : Bool) (a : A) → (if b then a else a) ≡ a
if_same true a = refl
if_same false a = refl

get_or-writes :
    (seg : ℕ → List ℕ) (msgs : List (List ℕ)) (l : List (ℕ × ℕ)) (j : ℕ)
    → j < length msgs
    → get_or (writes seg msgs l) j [] ≡ (if arrived j l then seg j else get_or msgs j [])
unfolding writes arrived
get_or-writes seg msgs [] j h = refl
get_or-writes seg msgs ((now, i) ∷ rest) j h =
    get_or-writes seg (set msgs i (seg i)) rest j (rw (length-set msgs i (seg i)) h)
    ∙ elim (Bool-cases (i == j)) [
      | inl e ↦
          rw
            (
              e,
              subst (λ k. get_or (set msgs i (seg i)) k [] ≡ seg k) ((nat_beq_iff i j).0 e)
                  (get_or-set_self msgs i (seg i) [] (rw ((nat_beq_iff i j).0 e) h)),
            )
            (if_same (arrived j rest) (seg j))
      | inr e ↦ rw (e, get_or-set_ne msgs i j (seg i) [] (λ q. cc (e, (nat_beq_iff i j).1 q)))
    ]

length-writes :
    (seg : ℕ → List ℕ) (msgs : List (List ℕ)) (l : List (ℕ × ℕ))
    → length (writes seg msgs l) ≡ length msgs
unfolding writes
length-writes seg msgs [] = refl
length-writes seg msgs ((now, i) ∷ rest) =
    length-writes seg (set msgs i (seg i)) rest ∙ length-set msgs i (seg i)

get_or-map_range :
    (seg : ℕ → List ℕ) (start n j : ℕ)
    → j < n
    → get_or (map seg (range_from start n)) j [] ≡ seg (start + j)
unfolding range_from
get_or-map_range seg start zero j h = absurd (omega arith)
get_or-map_range seg start (suc n) zero h = ap seg (omega arith)
get_or-map_range seg start (suc n) (suc j) h =
    get_or-map_range seg (suc start) n j (omega arith) ∙ ap seg (omega arith)

-- The segments at consecutive indices are a stretch of the payload.
build-segments :
    (p : List ℕ) (start n : ℕ)
    → build (map (segment p) (range_from start n))
      ≡ take (n * max_payload_size) (drop (start * max_payload_size) p)
unfolding build range_from segment
build-segments p start zero = refl
build-segments p start (suc n) =
    ap (◌++◌ (segment p start)) (build-segments p (suc start) n ∙ ap (take (n * 1188)) next)
    ∙ take-append-take-drop 1188 (n * 1188) (drop (start * 1188) p)
    ∙ ap (λ (k : ℕ). take k (drop (start * 1188) p)) (omega arith)
  where
    next : drop (suc start * 1188) p ≡ drop 1188 (drop (start * 1188) p)
    next = ap (λ (k : ℕ). drop k p) (omega arith) ∙ sym (drop-drop 1188 (start * 1188) p)

-- All the segments together are the payload.
pub build-all : (p : List ℕ) → build (map (segment p) (range_from 0 (suc (last_index p)))) ≡ p
build-all p = build-segments p 0 (suc (last_index p)) ∙ take-length_le _ p (enough p)
  where
    enough : (q : List ℕ) → length q ≤ suc (last_index q) * 1188
    enough q = elim (Bool-cases (leb (length q) 1188)) [
      | inl e ↦ omega (arith, leb→le (length q) 1188 e)
      | inr e ↦ rw (last_index_long q e) (omega arith)
    ]

or_true : (b : Bool) → (b || true) ≡ true
or_true true = refl
or_true false = refl

Bool-set : IsSet Bool
Bool-set = hlevel

arrived_of_mem : (j : ℕ) (l : List (ℕ × ℕ)) → Mem j (map (λ a. a.1) l) → arrived j l ≡ true
unfolding arrived
arrived_of_mem j [] m = absurd (not-mem-nil m)
arrived_of_mem j ((now, i) ∷ rest) m =
    Or.elim (Bool-set _ _) (eq-or-mem_of_mem-cons m) (λ e. rw ((nat_beq_iff i j).1 (sym e)))
      (λ m'. rw (arrived_of_mem j rest m') (or_true (i == j)))

lt_of_mem-range_from : (k start n : ℕ) → Mem k (range_from start n) → k < start + n
unfolding range_from
lt_of_mem-range_from k start zero m = absurd (not-mem-nil m)
lt_of_mem-range_from k start (suc n) m =
    Or.elim le_prop (eq-or-mem_of_mem-cons m) (λ e. omega arith)
      (λ m'. omega (arith, lt_of_mem-range_from k (suc start) n m'))

mem-range_from : (k start n : ℕ) → k < n → Mem (start + k) (range_from start n)
unfolding range_from
mem-range_from k start zero h = elim h [ ]
mem-range_from zero start (suc n) h = ∣ Memᴰ.head (omega arith) ∣₁
mem-range_from (suc k) start (suc n) h = mem-cons_of_mem start (
    subst (λ x. Mem x (range_from (suc start) n)) (omega arith)
      (mem-range_from k (suc start) n (omega arith)))

InRange-of_mem :
    (n : ℕ) (l : List (ℕ × ℕ)) → ((i : ℕ) → Mem i (map (λ a. a.1) l) → i < n) → InRange n l
InRange-of_mem n [] h = tt
InRange-of_mem n ((now, i) ∷ rest) h =
    (h i mem-cons_self, InRange-of_mem n rest (λ k m. h k (mem-cons_of_mem i m)))

length-map {ℓ κ} :
    {A : Type ℓ} {B : Type κ} (f : A → B) (xs : List A) → length (map f xs) ≡ length xs
length-map f [] = refl
length-map f (x ∷ xs) = ap suc (length-map f xs)

length-perm {ℓ} : {A : Type ℓ} {xs ys : List A} → Permᴰ xs ys → length xs ≡ length ys
length-perm Permᴰ.nil = refl
length-perm (Permᴰ.cons e d) = ap suc (length-perm d)
length-perm (Permᴰ.swap e f) = refl
length-perm (Permᴰ.trans c d) = length-perm c ∙ length-perm d

pub length-blank : (n : ℕ) → length (replicate {A = List ℕ} n []) ≡ n
length-blank n = length-replicate n []

-- What a permutation of the indices gives.
module _ (n : ℕ) (l : List (ℕ × ℕ)) (any_order : Perm (map (λ a. a.1) l) (range_from 0 n)) where
  length_of_perm : length l ≡ n
  length_of_perm =
      sym (length-map (λ a. a.1) l)
      ∙ ∥∥₁_elim any_order (ℕ_set _ _) (λ d. length-perm d)
      ∙ length-range_from 0 n

  InRange-of_perm : InRange n l
  InRange-of_perm =
      InRange-of_mem n l
        (λ i m. omega (arith, lt_of_mem-range_from i 0 n ((Perm.mem_iff any_order).0 m)))

  arrived_of_perm : (j : ℕ) → j < n → arrived j l ≡ true
  arrived_of_perm j h = arrived_of_mem j l (
      (Perm.mem_iff any_order).1
        (subst (λ k. Mem k (range_from 0 n)) (zero-add j) (mem-range_from j 0 n h)))

  writes_of_perm : (seg : ℕ → List ℕ) → writes seg (replicate n []) l ≡ map seg (range_from 0 n)
  writes_of_perm seg =
      eq_of_get_or [] _ _
        (length-writes seg (replicate n []) l
          ∙ length-blank n
          ∙ sym (length-range_from 0 n)
          ∙ sym (length-map seg (range_from 0 n)))
        λ j h.
          let below : j < n = omega (arith, length-writes seg (replicate n []) l, length-blank n) in
          get_or-writes seg (replicate n []) l j (rw (length-blank n) below)
          ∙ rw (arrived_of_perm j below)
              (sym (get_or-map_range seg 0 n j below ∙ ap seg (zero-add j)))

pub fresh-Partial :
    (t : ReadBuffers) (seq_num max_idx : ℕ)
    → lookup seq_num t.read_buffer ≡ none
    → max_idx < 65535
    → Partial t t seq_num max_idx 0 (replicate (suc max_idx) [])
unfolding or_new new_buffer
fresh-Partial t seq_num max_idx absent h = record {
  counted = rw absent;
  held =
      let e : (max_idx + 1) % 65536 ≡ suc max_idx = omega arith in
      rw (absent, or_new) (ap (λ n. replicate n []) e);
  others = λ k e. refl;
  same_expiry = refl;
}

-- A message that `SendTo` cuts into fewer than 65536 datagrams is put together again: if its sequence
-- number has no entry, and the datagrams arrive in any order, each once, at any times, then every call
-- of `Receive` but the last returns nothing, the last returns the message, its entry is gone and the
-- other entries are as they were.
pub reassembly :
    (t : ReadBuffers) (seq_num : ℕ) (p : List ℕ) (arrivals : List (ℕ × ℕ))
    → seq_num < 4294967296
    → last_index p < 65535
    → lookup seq_num t.read_buffer ≡ none
    → Perm (map (λ a. a.1) arrivals) (range_from 0 (suc (last_index p)))
    → Delivers t t seq_num (map (arrival seq_num (last_index p) p) arrivals) (last_index p) p
reassembly t seq_num p [] seq_fits small absent any_order =
    absurd (omega (arith, length_of_perm (suc (last_index p)) [] any_order))
reassembly t seq_num p ((now, i) ∷ rest) seq_fits small absent any_order =
    subst₂ (Delivers t t seq_num (map (arrival seq_num (last_index p) p) ((now, i) ∷ rest)))
      (omega (arith, length_of_perm (suc (last_index p)) ((now, i) ∷ rest) any_order))
      (ap build (writes_of_perm (suc (last_index p)) ((now, i) ∷ rest) any_order (segment p))
        ∙ build-all p)
      (collect seq_num (last_index p) p seq_fits (omega arith) t t now i rest 0
        (replicate (suc (last_index p)) []) (rw (length-blank (suc (last_index p))) (omega arith))
        (rw (length-blank (suc (last_index p)))
          (omega (arith, length_of_perm (suc (last_index p)) ((now, i) ∷ rest) any_order)))
        (subst (λ n. InRange n ((now, i) ∷ rest)) (sym (length-blank (suc (last_index p))))
          (InRange-of_perm (suc (last_index p)) ((now, i) ∷ rest) any_order))
        (fresh-Partial t seq_num (last_index p) absent small))
