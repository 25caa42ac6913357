-- ===== src/Wire/Queues.antt =====
-- The channels with room for 1024 messages into which the read loops of a connection put what arrives: the loop
-- does not wait, so a message that finds its channel full is dropped.
use iscp_go.Prelude.{
  ltb→lt, nat_beq_iff, ◌-◌, ◌&&◌, ◌≢◌, false, beq_refl, lookup-insert_same, lookup-insert_other,
  ◌+◌, subst, ℕ, ◌≤◌, ◌≡◌, refl, sym, ap, ◌∙◌, inl, inr, List, [], ◌∷◌, ◌++◌, Option, none, some,
  arith, ltb, ◌==◌, nat_eq, if◌then◌else◌, length, Map, has_key, has_key-insert, has_key_of_some,
  if_cases, lookup, insert, length-append, Bool-cases,
}
use mathlib.Core.List.{append_assoc, append-nil}

abbrev pub capacity : ℕ
capacity = 1024

-- What happens to the channels: the loop reads a message with an alias, or the receiver of an alias takes one.
pub data ChannelEvent (M : Type 0) : Type 0 where
  read_message : ℕ → M → ChannelEvent M
  taken : ℕ → ChannelEvent M

module _ {M : Type 0} where
  -- `select { case ch <- msg: default: }`
  unfoldable pub offer : List M → M → List M
  offer q m = if ltb (length q) capacity then q ++ (m ∷ []) else q

  unfoldable pub offer_to : Option (List M) → Map ℕ (List M) → ℕ → M → Map ℕ (List M)
  offer_to none channels alias m = channels
  offer_to (some q) channels alias m = insert alias (offer q m) channels

  -- One round of a loop that looks up the channel by the alias in the message.
  unfoldable pub dispatch : Map ℕ (List M) → ℕ → M → Map ℕ (List M)
  dispatch channels alias m = offer_to (lookup alias channels) channels alias m

  -- A receiver takes the first message of a channel; it waits where there is none.
  unfoldable pub take_from : Option (List M) → Map ℕ (List M) → ℕ → Map ℕ (List M) × List M
  take_from none channels alias = (channels, [])
  take_from (some []) channels alias = (channels, [])
  take_from (some (m ∷ q)) channels alias = (insert alias q channels, m ∷ [])

  abbrev pub on_event : Map ℕ (List M) → ChannelEvent M → Map ℕ (List M)
  on_event channels (read_message alias m) = dispatch channels alias m
  on_event channels (taken alias) = (take_from (lookup alias channels) channels alias).0

  unfoldable pub dispatch_all : Map ℕ (List M) → List (ChannelEvent M) → Map ℕ (List M)
  dispatch_all channels [] = channels
  dispatch_all channels (e ∷ es) = dispatch_all (on_event channels e) es

  -- What the receiver of an alias gets from an event, and from all.
  abbrev pub got_from : ℕ → Map ℕ (List M) → ChannelEvent M → List M
  got_from alias channels (read_message a m) = []
  got_from alias channels (taken a) =
      if a == alias then (take_from (lookup a channels) channels a).1 else []

  unfoldable pub received : ℕ → Map ℕ (List M) → List (ChannelEvent M) → List M
  received alias channels [] = []
  received alias channels (e ∷ es) =
      got_from alias channels e ++ received alias (on_event channels e) es

  -- How many messages of an alias wait after an event, and which of those read are kept: one that is read while
  -- 1024 wait is dropped.
  abbrev pub waiting_after : ℕ → ℕ → ChannelEvent M → ℕ
  waiting_after alias n (read_message a m) = if (a == alias) && ltb n 1024 then n + 1 else n
  waiting_after alias n (taken a) = if a == alias then n - 1 else n

  abbrev pub kept_of : ℕ → ℕ → ChannelEvent M → List M
  kept_of alias n (read_message a m) = if (a == alias) && ltb n 1024 then m ∷ [] else []
  kept_of alias n (taken a) = []

  unfoldable pub kept : ℕ → ℕ → List (ChannelEvent M) → List M
  kept alias n [] = []
  kept alias n (e ∷ es) = kept_of alias n e ++ kept alias (waiting_after alias n e) es

  has_key-offer_to :
      (o : Option (List M)) (channels : Map ℕ (List M)) (a alias : ℕ) (m : M)
      → lookup a channels ≡ o
      → has_key alias (offer_to o channels a m) ≡ has_key alias channels
  unfolding offer_to
  has_key-offer_to none channels a alias m e = refl
  has_key-offer_to (some q) channels a alias m e =
      has_key-insert a alias (offer q m) channels
      ∙ if_cases (λ x. x ≡ has_key alias channels) (a == alias)
          (λ h. sym (
            has_key_of_some alias q channels
              (subst (λ k. lookup k channels ≡ some q) ((nat_beq_iff a alias).0 h) e)))
          (λ h. refl)

  pub has_key-dispatch :
      (channels : Map ℕ (List M)) (a alias : ℕ) (m : M)
      → has_key alias (dispatch channels a m) ≡ has_key alias channels
  unfolding dispatch
  has_key-dispatch channels a alias m = has_key-offer_to (lookup a channels) channels a alias m refl

  offer_one : (q : List M) (m : M) → offer q m ≡ q ++ (if ltb (length q) 1024 then m ∷ [] else [])
  unfolding offer
  offer_one q m = elim (Bool-cases (ltb (length q) 1024)) [
    | inl e ↦ rw e refl
    | inr e ↦ rw e (sym (append-nil q))
  ]

  abbrev alias_of : ChannelEvent M → ℕ
  alias_of (read_message a m) = a
  alias_of (taken a) = a

  offer_to-other :
      (o : Option (List M)) (channels : Map ℕ (List M)) (a alias : ℕ) (m : M)
      → a ≢ alias
      → lookup alias (offer_to o channels a m) ≡ lookup alias channels
  unfolding offer_to
  offer_to-other none channels a alias m n = refl
  offer_to-other (some q) channels a alias m n = lookup-insert_other a alias (offer q m) channels n

  take_from-other :
      (o : Option (List M)) (channels : Map ℕ (List M)) (a alias : ℕ)
      → a ≢ alias
      → lookup alias (take_from o channels a).0 ≡ lookup alias channels
  unfolding take_from
  take_from-other none channels a alias n = refl
  take_from-other (some []) channels a alias n = refl
  take_from-other (some (m ∷ q)) channels a alias n = lookup-insert_other a alias q channels n

  other_event :
      (channels : Map ℕ (List M)) (e : ChannelEvent M) (alias : ℕ)
      → alias_of e ≢ alias
      → lookup alias (on_event channels e) ≡ lookup alias channels
  unfolding dispatch
  other_event channels (read_message a m) alias n =
      offer_to-other (lookup a channels) channels a alias m n
  other_event channels (taken a) alias n = take_from-other (lookup a channels) channels a alias n

  -- What an event does to the channel of an alias that holds these messages.
  abbrev Moves : ℕ → Map ℕ (List M) → List M → ChannelEvent M → Type 0
  Moves alias channels q e =
      (q' : List M) × (lookup alias (on_event channels e) ≡ some q')
      × (got_from alias channels e ++ q' ≡ q ++ kept_of alias (length q) e)
      × (length q' ≡ waiting_after alias (length q) e)
      × (length q' ≤ 1024)

  offered :
      (channels : Map ℕ (List M)) (alias : ℕ) (q : List M) (m : M)
      → lookup alias channels ≡ some q
      → lookup alias (dispatch channels alias m) ≡ some (offer q m)
  unfolding dispatch offer_to
  offered channels alias q m h = rw h (lookup-insert_same alias (offer q m) channels)

  length-offer :
      (q : List M) (m : M)
      → length q ≤ 1024
      → (length (offer q m) ≡ (if ltb (length q) 1024 then length q + 1 else length q))
        × (length (offer q m) ≤ 1024)
  unfolding offer
  length-offer q m h =
      let l = length-append q (m ∷ []) in
      elim (Bool-cases (ltb (length q) 1024)) [
        | inl e ↦ rw e (let k = ltb→lt (length q) 1024 e in (omega arith, omega arith))
        | inr e ↦ rw e (refl, h)
      ]

  own_read :
      (channels : Map ℕ (List M)) (alias : ℕ) (q : List M) (m : M)
      → lookup alias channels ≡ some q
      → length q ≤ 1024
      → Moves alias channels q (read_message alias m)
  own_read channels alias q m h room =
      let (l, small) = length-offer q m room in
      (
        offer q m,
        offered channels alias q m h,
        rw (beq_refl alias) (offer_one q m),
        rw (beq_refl alias) l,
        small,
      )

  own_taken :
      (channels : Map ℕ (List M)) (alias : ℕ) (q : List M)
      → lookup alias channels ≡ some q
      → length q ≤ 1024
      → Moves alias channels q (taken alias)
  unfolding take_from
  own_taken channels alias [] h room = (
    [],
    ap (λ o. lookup alias (take_from o channels alias).0) h ∙ h,
    rw (beq_refl alias, h) refl,
    rw (beq_refl alias) refl,
    room,
  )
  own_taken channels alias (m ∷ q) h room = (
    q,
    ap (λ o. lookup alias (take_from o channels alias).0) h ∙ lookup-insert_same alias q channels,
    rw (beq_refl alias, h) (ap (λ xs. m ∷ xs) (sym (append-nil q))),
    rw (beq_refl alias) (omega arith),
    omega arith,
  )

  own :
      (channels : Map ℕ (List M)) (q : List M) (e : ChannelEvent M)
      → lookup (alias_of e) channels ≡ some q
      → length q ≤ 1024
      → Moves (alias_of e) channels q e
  own channels q (read_message a m) h room = own_read channels a q m h room
  own channels q (taken a) h room = own_taken channels a q h room

  others_get :
      (channels : Map ℕ (List M)) (e : ChannelEvent M) (alias n : ℕ)
      → (alias_of e == alias) ≡ false
      → (got_from alias channels e ≡ []) × (kept_of alias n e ≡ []) × (waiting_after alias n e ≡ n)
  others_get channels (read_message a m) alias n h = rw h (refl, refl, refl)
  others_get channels (taken a) alias n h = rw h (refl, refl, refl)

  moves :
      (channels : Map ℕ (List M)) (q : List M) (e : ChannelEvent M) (alias : ℕ)
      → lookup alias channels ≡ some q
      → length q ≤ 1024
      → Moves alias channels q e
  moves channels q e alias h room = elim (Bool-cases (alias_of e == alias)) [
    | inl s ↦
        let same = (nat_beq_iff (alias_of e) alias).0 s in
        subst (λ a. Moves a channels q e) same
          (own channels q e (subst (λ a. lookup a channels ≡ some q) (sym same) h) room)
    | inr s ↦
        let (g, k, w) = others_get channels e alias (length q) s in
        (
          q,
          other_event channels e alias (λ x. absurd (ground (arith, s, x))) ∙ h,
          ap (λ xs. xs ++ q) g ∙ sym (append-nil q) ∙ ap (λ xs. q ++ xs) (sym k),
          sym w,
          room,
        )
  ]

  assembled :
      (g r q' q'' q k ks : List M)
      → g ++ q' ≡ q ++ k
      → r ++ q'' ≡ q' ++ ks
      → (g ++ r) ++ q'' ≡ q ++ (k ++ ks)
  assembled g r q' q'' q k ks e f =
      append_assoc g r q''
      ∙ ap (λ xs. g ++ xs) f
      ∙ sym (append_assoc g q' ks)
      ∙ ap (λ xs. xs ++ ks) e
      ∙ append_assoc q k ks

  -- Over any order of messages that the loop reads and takings by receivers: what the receiver of an alias gets,
  -- followed by what its channel holds at the end, is what the channel held followed by the messages
  -- with this alias that the loop read while fewer than 1024 waited in the channel; those read while
  -- 1024 waited are dropped. The channel never holds more than 1024.
  pub dispatch_all_lem :
      (channels : Map ℕ (List M)) (es : List (ChannelEvent M)) (alias : ℕ) (q : List M)
      → lookup alias channels ≡ some q
      → length q ≤ 1024
      → (q' : List M) × (lookup alias (dispatch_all channels es) ≡ some q')
        × (received alias channels es ++ q' ≡ q ++ kept alias (length q) es)
        × (length q' ≤ 1024)
  unfolding dispatch_all received kept
  dispatch_all_lem channels [] alias q h room = (q, h, sym (append-nil q), room)
  dispatch_all_lem channels (e ∷ es) alias q h room =
      let (p, found, moved, count, small) = moves channels q e alias h room in
      let (p', found', moved', small') =
        dispatch_all_lem (on_event channels e) es alias p found small in
      (
        p',
        found',
        assembled (got_from alias channels e) (received alias (on_event channels e) es) p p' q
            (kept_of alias (length q) e) (kept alias (waiting_after alias (length q) e) es) moved
            (moved' ∙ ap (λ n. p ++ kept alias n es) count),
        small',
      )
