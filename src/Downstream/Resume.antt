-- ===== src/Downstream/Resume.antt =====
-- `Downstream.resume`, of a downstream that is resuming, on a new connection, with the tables of that
-- connection. The answers of the server to the requests that are sent are an argument; their list ends where
-- the context is cancelled. A response of another message
-- type, which the code does not expect, is left out.
pub mod Conflict
use iscp_go.Prelude.{
  ℕ, List, [], ◌∷◌, Bool, true, false, Comparable, String, ◌==◌, nat_eq, if◌then◌else◌,
}
use iscp_go.Wire.Upstreams.{QoS}
use iscp_go.Wire.Downstreams.{
  Downstreams, Subscribed, subscribed, already_subscribed, subscribe_downstream_chunk,
  subscribe_downstream_chunk_ack_complete, subscribe_downstream_meta, set_alias,
}
use iscp_go.Downstream.Reading.{succeeded}

-- `ResultCodeResumeRequestConflict`
abbrev pub resume_request_conflict : ℕ
resume_request_conflict = 18

-- The result code and the new token, or an error of the request.
pub data Answer : Type 0 where
  request_failed : Answer
  answered : ℕ → String → Answer

pub data ResumeError : Type 0 where
  subscribe_chunk_failed : ResumeError
  subscribe_ack_failed : ResumeError
  send_failed : ResumeError
  refused : ℕ → ResumeError
  connection_closed : ResumeError

-- What one call of the function that is retried leads to, and what resuming does.
pub data Attempt (T : Type 0) : Type 0 where
  ended : ResumeError → T → Attempt T
  once_more : T → Attempt T
  resumed_with : String → T → Attempt T

pub data Resumed (T : Type 0) : Type 0 where
  not_resumed : ResumeError → T → Resumed T
  resumed : String → T → Resumed T

-- The part of a call before the request: an error, or the tables with which the request is sent.
pub data Prepared (T : Type 0) : Type 0 where
  not_sent : ResumeError → T → Prepared T
  to_send : T → Prepared T

unfoldable pub after_subscription :
    {T : Type 0} → ResumeError → T → Subscribed T → (T → Prepared T) → Prepared T
after_subscription e tables already_subscribed f = not_sent e tables
after_subscription e tables (subscribed t) f = f t

unfoldable pub after_preparation : {T : Type 0} → Prepared T → (T → Resumed T) → Resumed T
after_preparation (not_sent e t) f = not_resumed e t
after_preparation (to_send t) f = f t

unfoldable pub settle : {T : Type 0} → Attempt T → (T → Resumed T) → Resumed T
settle (ended e t) again = not_resumed e t
settle (resumed_with token t) again = resumed token t
settle (once_more t) again = again t

-- The token of the request.
abbrev pub request_token : Bool → String → String
request_token supports_resume_token resume_token =
    if supports_resume_token then resume_token else ""

module _ {Uuid Node Chunk Complete Meta : Type 0} ⦃c : Comparable Uuid⦄ ⦃n : Comparable Node⦄ where
  -- `Conn.subscribeDownstreamMetadata`, for the source nodes of the filters.
  unfoldable pub subscribe_downstream_metadata :
      ℕ
      → List Node
      → Downstreams Uuid Node Chunk Complete Meta
      → Downstreams Uuid Node Chunk Complete Meta
  subscribe_downstream_metadata id_alias [] t = t
  subscribe_downstream_metadata id_alias (node ∷ nodes) t =
      subscribe_downstream_metadata id_alias nodes (subscribe_downstream_meta t id_alias node)

  -- What becomes of the answer, for the stream with this alias, by whether the connection supports resume tokens.
  unfoldable pub judge :
      Bool
      → String
      → Uuid
      → ℕ
      → Answer
      → Downstreams Uuid Node Chunk Complete Meta
      → Attempt (Downstreams Uuid Node Chunk Complete Meta)
  judge supports_resume_token resume_token id id_alias request_failed t = ended send_failed t
  judge supports_resume_token resume_token id id_alias (answered code token) t =
      let t' = set_alias t id id_alias in
      if code == resume_request_conflict
      then once_more t'
      else if code == succeeded
      then resumed_with (if supports_resume_token then token else resume_token) t'
      else ended (refused code) t'

-- What the downstream knows: whether the connection has an unreliable transport, its alias, its QoS, and the source
-- nodes of its filters.
module _ {Uuid Node Chunk Complete Meta : Type 0} ⦃c : Comparable Uuid⦄ ⦃n : Comparable Node⦄
    (has_unreliable : Bool) (id_alias : ℕ) (qos : QoS) (filters : List Node) where
  -- The subscriptions.
  unfoldable pub prepare_resume :
      Downstreams Uuid Node Chunk Complete Meta
      → Prepared (Downstreams Uuid Node Chunk Complete Meta)
  unfolding after_subscription
  prepare_resume t =
      after_subscription subscribe_chunk_failed t
        (subscribe_downstream_chunk has_unreliable t id_alias qos)
        (λ u.
          after_subscription subscribe_ack_failed u
            (subscribe_downstream_chunk_ack_complete u id_alias)
            (λ v. to_send (subscribe_downstream_metadata id_alias filters v)))

-- What the downstream knows besides: whether the connection supports resume tokens, its token, and its stream.
module _ {Uuid Node Chunk Complete Meta : Type 0} ⦃c : Comparable Uuid⦄ ⦃n : Comparable Node⦄
    (has_unreliable supports_resume_token : Bool) (resume_token : String) (id : Uuid) (id_alias : ℕ)
    (qos : QoS) (filters : List Node) where
  -- A server answers each request that is sent, knowing its token.
  unfoldable pub resume :
      Downstreams Uuid Node Chunk Complete Meta
      → List (String → Answer)
      → Resumed (Downstreams Uuid Node Chunk Complete Meta)
  resume t [] =
      after_preparation (prepare_resume has_unreliable id_alias qos filters t)
        (λ v. not_resumed connection_closed v)
  resume t (a ∷ answers) =
      after_preparation (prepare_resume has_unreliable id_alias qos filters t) (λ v.
        settle
          (judge supports_resume_token resume_token id id_alias
            (a (request_token supports_resume_token resume_token)) v)
          (λ u. resume u answers))
