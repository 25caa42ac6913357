-- ===== src/Conn/Calls/Answers.antt =====
-- A caller who waits for a reply gets it, once.
use iscp_go.Prelude.{
  ℕ, ◌≡◌, ◌≢◌, refl, sym, ap, ◌∙◌, List, [], ◌∷◌, Option, none, some, false, String, string_eq,
  ◌==◌, if_cases, lookup, insert, lookup-insert_same, lookup-erase_other, lookup-erase_same,
}
use mathlib.Core.Option
use iscp_go.Conn.Calls.{
  DownstreamCall, Calls, enter, subscribe_reply, give_reply, read_downstream_call, read_calls,
}

module _ {Body : Type 0} where
  -- None of the calls replies to this one.
  abbrev pub NoReplyTo : String → List (DownstreamCall Body) → Type 0
  NoReplyTo id [] = Unit {0}
  NoReplyTo id (dc ∷ dcs) = (dc.request_call_id ≢ id) × NoReplyTo id dcs

  give-keeps :
      (o : Option ℕ) (c : Calls Body) (dc : DownstreamCall Body) (id : String)
      → dc.request_call_id ≢ id
      → lookup id (give_reply o c dc).reply_call_chs ≡ lookup id c.reply_call_chs
  unfolding give_reply
  give-keeps none c dc id n = refl
  give-keeps (some ch) c dc id n = lookup-erase_other dc.request_call_id id c.reply_call_chs n

  read-keeps :
      (c : Calls Body) (dc : DownstreamCall Body) (id : String)
      → dc.request_call_id ≢ id
      → lookup id (read_downstream_call c dc).reply_call_chs ≡ lookup id c.reply_call_chs
  unfolding read_downstream_call
  read-keeps c dc id n =
      if_cases (λ (x : Calls Body). lookup id x.reply_call_chs ≡ lookup id c.reply_call_chs)
        (dc.request_call_id == "") (λ q. refl)
        (λ q. give-keeps (lookup dc.request_call_id c.reply_call_chs) _ dc id n)

  reads-keep :
      (c : Calls Body) (dcs : List (DownstreamCall Body)) (id : String)
      → NoReplyTo id dcs
      → lookup id (read_calls c dcs).reply_call_chs ≡ lookup id c.reply_call_chs
  unfolding read_calls
  reads-keep c [] id h = refl
  reads-keep c (dc ∷ dcs) id h =
      reads-keep (read_downstream_call c dc) dcs id h.1 ∙ read-keeps c dc id h.0

  given :
      (o : Option ℕ) (c : Calls Body) (dc : DownstreamCall Body) (ch : ℕ)
      → o ≡ some ch
      → ((give_reply o c dc).replied ≡ ((ch, dc) ∷ c.replied))
        × (lookup dc.request_call_id (give_reply o c dc).reply_call_chs ≡ none)
  unfolding give_reply
  given none c dc ch e = absurd (cc)
  given (some k) c dc ch e =
      let same : k ≡ ch = cc in
      (ap (λ j. (j, dc) ∷ c.replied) same, lookup-erase_same dc.request_call_id c.reply_call_chs)

  -- What a caller has who subscribed with a channel before other calls arrived.
  abbrev pub Answered : Calls Body → List (DownstreamCall Body) → DownstreamCall Body → ℕ → Type 0
  Answered c dcs dc ch =
      ((read_downstream_call (read_calls c dcs) dc).replied
        ≡ ((ch, dc) ∷ (read_calls c dcs).replied))
      × (lookup dc.request_call_id (read_downstream_call (read_calls c dcs) dc).reply_call_chs
          ≡ none)

  answered :
      (c : Calls Body) (dcs : List (DownstreamCall Body)) (dc : DownstreamCall Body) (ch : ℕ)
      → (dc.request_call_id == "") ≡ false
      → lookup dc.request_call_id c.reply_call_chs ≡ some ch
      → NoReplyTo dc.request_call_id dcs
      → Answered c dcs dc ch
  unfolding read_downstream_call
  answered c dcs dc ch n e quiet =
      if_cases
        (λ (x : Calls Body).
          (x.replied ≡ ((ch, dc) ∷ (read_calls c dcs).replied))
          × (lookup dc.request_call_id x.reply_call_chs ≡ none))
        (dc.request_call_id == "") (λ q. absurd (cc))
        (λ q.
          given (lookup dc.request_call_id (read_calls c dcs).reply_call_chs) _ dc ch
            (reads-keep c dcs dc.request_call_id quiet ∙ e))

  subscribed :
      (o : Option ℕ) (c d : Calls Body) (id : String) (ch : ℕ)
      → Option.map (λ table. record c { reply_call_chs = table }) (enter o c.reply_call_chs id ch)
        ≡ some d
      → (lookup id d.reply_call_chs ≡ some ch) × (o ≡ none)
  unfolding enter
  subscribed (some k) c d id ch e = absurd (cc)
  subscribed none c d id ch e =
      let same : insert id ch c.reply_call_chs ≡ d.reply_call_chs =
        ap
          (λ (o : Option (Calls Body)). elim o [
            | none ↦ d.reply_call_chs
            | some x ↦ x.reply_call_chs
          ])
          e in
      (ap (lookup id) (sym same) ∙ lookup-insert_same id ch c.reply_call_chs, refl)

  -- A caller who has subscribed to the replies to a call, with an identifier that is not empty, is sent the first
  -- reply to it, whatever other calls and replies arrive before, and the table has no channel for this
  -- identifier afterwards; the subscription succeeds only where there was none.
  pub reply_reaches_caller :
      (c d : Calls Body) (dcs : List (DownstreamCall Body)) (dc : DownstreamCall Body) (ch : ℕ)
      → (dc.request_call_id == "") ≡ false
      → subscribe_reply c dc.request_call_id ch ≡ some d
      → NoReplyTo dc.request_call_id dcs
      → Answered d dcs dc ch × (lookup dc.request_call_id c.reply_call_chs ≡ none)
  unfolding subscribe_reply
  reply_reaches_caller c d dcs dc ch n e quiet =
      let (here, free) =
        subscribed (lookup dc.request_call_id c.reply_call_chs) c d dc.request_call_id ch e in
      (answered d dcs dc ch n here quiet, free)
