-- ===== src/Downstream/Resume/Conflict.antt =====
-- What the answers of the server lead to on a connection on which the alias is not used yet.
use iscp_go.Prelude.{
  ℕ, ◌≡◌, refl, ap, ◌∙◌, List, [], ◌∷◌, Option, none, some, Bool, true, false, Comparable, String,
  nat_eq, if◌then◌else◌, lookup, insert, lookup-insert_same,
}
use iscp_go.Wire.Upstreams.{QoS, unreliable, reliable, partial}
use iscp_go.Wire.Downstreams.{
  Downstreams, Subscribed, subscribed, already_subscribed, subscribe_in, new_downstream_chunk_ch,
  new_downstream_chunk_unreliable_ch, subscribe_downstream_chunk,
  subscribe_downstream_chunk_ack_complete, subscribe_downstream_meta, set_alias,
}
use iscp_go.Wire.Downstreams.Closing.{NoChannels}
use iscp_go.Downstream.Reading.{succeeded}
use iscp_go.Downstream.Resume.{
  resume_request_conflict, Answer, answered, subscribe_chunk_failed, not_resumed, resumed,
  after_subscription, subscribe_downstream_metadata, judge, settle, prepare_resume, to_send,
  not_sent, after_preparation, resume,
}

subscribe-none : {T V : Type 0} (o : Option V) (t : T) → o ≡ none → subscribe_in o t ≡ subscribed t
unfolding subscribe_in
subscribe-none none t e = refl
subscribe-none (some v) t e = absurd (cc)

subscribe-some :
    {T V : Type 0} (o : Option V) (v : V) (t : T)
    → o ≡ some v
    → subscribe_in o t ≡ already_subscribed
unfolding subscribe_in
subscribe-some none v t e = absurd (cc)
subscribe-some (some w) v t e = refl

module _ {Uuid Node Chunk Complete Meta : Type 0} ⦃c : Comparable Uuid⦄ ⦃n : Comparable Node⦄ where
  -- The channels for chunks are the same.
  abbrev pub SameDps :
      Downstreams Uuid Node Chunk Complete Meta → Downstreams Uuid Node Chunk Complete Meta → Type 0
  SameDps u v = (v.dps ≡ u.dps) × (v.dps_unreliable ≡ u.dps_unreliable)

module _ {Uuid Node Chunk Complete Meta : Type 0} ⦃c : Comparable Uuid⦄ ⦃n : Comparable Node⦄
    (has_unreliable : Bool) (id_alias : ℕ) where
  -- With these channels, chunks of this QoS cannot be subscribed again.
  abbrev pub Blocked : QoS → Downstreams Uuid Node Chunk Complete Meta → Type 0
  Blocked qos u =
      (v : Downstreams Uuid Node Chunk Complete Meta)
      → SameDps u v
      → subscribe_downstream_chunk has_unreliable v id_alias qos ≡ already_subscribed

  -- A subscription that works and cannot be repeated.
  abbrev pub Once :
      QoS
      → Downstreams Uuid Node Chunk Complete Meta
      → Subscribed (Downstreams Uuid Node Chunk Complete Meta)
      → Type 0
  Once qos t s =
      (u : Downstreams Uuid Node Chunk Complete Meta) × (s ≡ subscribed u)
      × (u.ack_completes ≡ t.ack_completes)
      × Blocked qos u

module _ {Uuid Node Chunk Complete Meta : Type 0} ⦃c : Comparable Uuid⦄ ⦃n : Comparable Node⦄
    (id_alias : ℕ) where
  reliable_blocked :
      (t u : Downstreams Uuid Node Chunk Complete Meta)
      → t.dps ≡ insert id_alias [] u.dps
      → new_downstream_chunk_ch t id_alias ≡ already_subscribed
  unfolding new_downstream_chunk_ch
  reliable_blocked t u e =
      subscribe-some (lookup id_alias t.dps) [] _
        (ap (lookup id_alias) e ∙ lookup-insert_same id_alias [] u.dps)

  unreliable_blocked :
      (t u : Downstreams Uuid Node Chunk Complete Meta)
      → t.dps_unreliable ≡ insert id_alias [] u.dps_unreliable
      → new_downstream_chunk_unreliable_ch t id_alias ≡ already_subscribed
  unfolding new_downstream_chunk_unreliable_ch
  unreliable_blocked t u e =
      subscribe-some (lookup id_alias t.dps_unreliable) [] _
        (ap (lookup id_alias) e ∙ lookup-insert_same id_alias [] u.dps_unreliable)

  once :
      (has_unreliable : Bool) (qos : QoS) (t : Downstreams Uuid Node Chunk Complete Meta)
      → NoChannels t id_alias
      → Once has_unreliable id_alias qos t
          (subscribe_downstream_chunk has_unreliable t id_alias qos)
  unfolding subscribe_downstream_chunk
  once b reliable t (e, f, g, h) = (
    record t { dps = insert id_alias [] t.dps },
    unfold new_downstream_chunk_ch in subscribe-none (lookup id_alias t.dps) _ e,
    refl,
    λ v s. reliable_blocked v t s.0,
  )
  once b partial t (e, f, g, h) = (
    record t { dps = insert id_alias [] t.dps },
    unfold new_downstream_chunk_ch in subscribe-none (lookup id_alias t.dps) _ e,
    refl,
    λ v s. reliable_blocked v t s.0,
  )
  once true unreliable t (e, f, g, h) = (
    record t { dps_unreliable = insert id_alias [] t.dps_unreliable },
    unfold new_downstream_chunk_unreliable_ch in
        subscribe-none (lookup id_alias t.dps_unreliable) _ f,
    refl,
    λ v s. unreliable_blocked v t s.1,
  )
  once false unreliable t (e, f, g, h) = (
    record t { dps = insert id_alias [] t.dps },
    unfold new_downstream_chunk_ch in subscribe-none (lookup id_alias t.dps) _ e,
    refl,
    λ v s. reliable_blocked v t s.0,
  )

module _ {Uuid Node Chunk Complete Meta : Type 0} ⦃c : Comparable Uuid⦄ ⦃n : Comparable Node⦄ where
  metadata_same :
      (id_alias : ℕ) (nodes : List Node) (t : Downstreams Uuid Node Chunk Complete Meta)
      → SameDps t (subscribe_downstream_metadata id_alias nodes t)
  unfolding subscribe_downstream_metadata subscribe_downstream_meta
  metadata_same id_alias [] t = (refl, refl)
  metadata_same id_alias (node ∷ nodes) t =
      metadata_same id_alias nodes (subscribe_downstream_meta t id_alias node)

  ack_once :
      (u : Downstreams Uuid Node Chunk Complete Meta) (id_alias : ℕ)
      → lookup id_alias u.ack_completes ≡ none
      → (v : Downstreams Uuid Node Chunk Complete Meta) × (subscribe_downstream_chunk_ack_complete u
            id_alias
          ≡ subscribed v)
        × SameDps u v
  unfolding subscribe_downstream_chunk_ack_complete
  ack_once u id_alias e = (
    record u { ack_completes = insert id_alias [] u.ack_completes },
    subscribe-none (lookup id_alias u.ack_completes) _ e,
    (refl, refl),
  )

  attempted :
      (has_unreliable : Bool) (id_alias : ℕ) (qos : QoS) (filters : List Node)
      (t : Downstreams Uuid Node Chunk Complete Meta)
      → NoChannels t id_alias
      → (w : Downstreams Uuid Node Chunk Complete Meta) × (prepare_resume has_unreliable id_alias
            qos filters t
          ≡ to_send w)
        × Blocked has_unreliable id_alias qos w
  unfolding prepare_resume after_subscription
  attempted b id_alias qos filters t free =
      let (u, e, same, blocked) = once id_alias b qos t free in
      let (v, f, kept) = ack_once u id_alias (ap (lookup id_alias) same ∙ free.2) in
      let (m, k) = metadata_same id_alias filters v in
      (
        subscribe_downstream_metadata id_alias filters v,
        rw (e, f) refl,
        λ x s. blocked x (s.0 ∙ m ∙ kept.0, s.1 ∙ k ∙ kept.1),
      )

  blocked_attempt :
      (has_unreliable : Bool) (id_alias : ℕ) (qos : QoS) (filters : List Node)
      (t : Downstreams Uuid Node Chunk Complete Meta)
      → subscribe_downstream_chunk has_unreliable t id_alias qos ≡ already_subscribed
      → prepare_resume has_unreliable id_alias qos filters t ≡ not_sent subscribe_chunk_failed t
  unfolding prepare_resume after_subscription
  blocked_attempt b id_alias qos filters t e = rw e refl

module _ {Uuid Node Chunk Complete Meta : Type 0} ⦃c : Comparable Uuid⦄ ⦃n : Comparable Node⦄
    (has_unreliable supports_resume_token : Bool) (resume_token : String) (id : Uuid) (id_alias : ℕ)
    (qos : QoS) (filters : List Node) where
  stuck :
      (u : Downstreams Uuid Node Chunk Complete Meta) (answers : List (String → Answer))
      → subscribe_downstream_chunk has_unreliable u id_alias qos ≡ already_subscribed
      → resume has_unreliable supports_resume_token resume_token id id_alias qos filters u answers
        ≡ not_resumed subscribe_chunk_failed u
  unfolding resume after_preparation
  stuck u [] e = rw (blocked_attempt has_unreliable id_alias qos filters u e) refl
  stuck u (a ∷ answers) e = rw (blocked_attempt has_unreliable id_alias qos filters u e) refl

  -- On a connection that has no channels for the alias of the downstream, let one server answer the request, which
  -- has the token of the downstream where the connection supports resume tokens and none otherwise, with
  -- a success, and another with a conflict. With the first, resuming succeeds; the downstream has the
  -- token of the answer where tokens are supported and keeps its own otherwise. With the second,
  -- resuming fails at the subscription of the chunks, before a further request is sent.
  pub resume_lem :
      (t : Downstreams Uuid Node Chunk Complete Meta) (token other : String)
      (accepts conflicts : String → Answer) (answers : List (String → Answer))
      → NoChannels t id_alias
      → accepts (if supports_resume_token then resume_token else "") ≡ answered succeeded token
      → conflicts (if supports_resume_token then resume_token else "")
        ≡ answered resume_request_conflict other
      → ((u : Downstreams Uuid Node Chunk Complete Meta) × (resume has_unreliable
              supports_resume_token resume_token id id_alias qos filters t
              (accepts ∷ answers)
            ≡ resumed (if supports_resume_token then token else resume_token) u)
          × (lookup id u.stream_aliases ≡ some id_alias))
        × ((u : Downstreams Uuid Node Chunk Complete Meta) × (resume has_unreliable
                supports_resume_token resume_token id id_alias qos filters t
                (conflicts ∷ answers)
              ≡ not_resumed subscribe_chunk_failed u))
  unfolding resume judge settle set_alias after_preparation
  resume_lem t token other accepts conflicts answers free accepted refused =
      let (w, e, blocked) = attempted has_unreliable id_alias qos filters t free in
      (
        (
          set_alias w id id_alias,
          rw (e, accepted) refl,
          lookup-insert_same id id_alias w.stream_aliases,
        ),
        (
          set_alias w id id_alias,
          rw (e, refused)
              (stuck (set_alias w id id_alias) answers
                (blocked (set_alias w id id_alias) (refl, refl))),
        ),
      )
