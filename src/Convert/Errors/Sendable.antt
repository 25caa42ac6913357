-- ===== src/Convert/Errors/Sendable.antt =====
-- Which messages can be written at all, said of the message alone.
use iscp_go.Prelude.{Bool, true, false, ◌&&◌, Option, none, some, List, [], ◌∷◌}
use iscp_go.Convert.Codes.{ResultCode, other, Qos, unlisted}
use iscp_go.Convert.Messages.{Message}
use iscp_go.Convert.Messages.Parts
use iscp_go.Convert.Messages.Parts.{Metadata, SendableMetadata, alias_pointer}

abbrev pub all {ℓ} : {A : Type ℓ} → (A → Bool) → List A → Bool
all p [] = true
all p (x ∷ xs) = p x && all p xs

abbrev pub known_code : ResultCode → Bool
known_code (other n) = false
known_code _ = true

abbrev pub known_qos : Qos → Bool
known_qos (unlisted n) = false
known_qos _ = true

abbrev pub known_upstream : Option Parts.UpstreamOrAlias → Bool
known_upstream none = false
known_upstream (some (alias_pointer a)) = false
known_upstream (some _) = true

abbrev pub known_sendable : {T : Type 0} → SendableMetadata T → Bool
known_sendable (SendableMetadata.base_time v) = true
known_sendable SendableMetadata.no_case = false

abbrev pub known_metadata : {T : Type 0} → Metadata T → Bool
known_metadata (Metadata.upstream_open v) = known_qos v.qos
known_metadata (Metadata.upstream_resume v) = known_qos v.qos
known_metadata (Metadata.downstream_open v) = known_qos v.qos
known_metadata (Metadata.downstream_resume v) = known_qos v.qos
known_metadata Metadata.no_case = false
known_metadata _ = true

-- What no case is there for cannot be written: a message, a result code, a quality of service, metadata
-- or the upstream of a chunk. The nil chunk and the nil metadata can.
unfoldable pub sendable : {T : Type 0} → Message T → Bool
sendable (Message.connect_request m) = true
sendable (Message.connect_response m) = known_code m.result_code
sendable (Message.disconnect m) = known_code m.result_code
sendable (Message.upstream_open_request m) = known_qos m.qos
sendable (Message.upstream_open_response m) = known_code m.result_code
sendable (Message.upstream_resume_request m) = true
sendable (Message.upstream_resume_response m) = known_code m.result_code
sendable (Message.upstream_close_request m) = true
sendable (Message.upstream_close_response m) = known_code m.result_code
sendable (Message.downstream_open_request m) = known_qos m.qos
sendable (Message.downstream_open_response m) = known_code m.result_code
sendable (Message.downstream_resume_request m) = true
sendable (Message.downstream_resume_response m) = known_code m.result_code
sendable (Message.downstream_close_request m) = true
sendable (Message.downstream_close_response m) = known_code m.result_code
sendable (Message.upstream_call m) = true
sendable (Message.upstream_call_ack m) = known_code m.result_code
sendable (Message.downstream_call m) = true
sendable (Message.ping m) = true
sendable (Message.pong m) = true
sendable (Message.upstream_chunk m) = true
sendable (Message.upstream_chunk_ack m) = all (λ v. known_code v.result_code) m.results
sendable (Message.downstream_chunk none) = true
sendable (Message.downstream_chunk (some m)) = known_upstream m.upstream_or_alias
sendable (Message.downstream_chunk_ack m) = all (λ v. known_code v.result_code) m.results
sendable (Message.downstream_chunk_ack_complete m) = known_code m.result_code
sendable (Message.upstream_metadata none) = true
sendable (Message.upstream_metadata (some m)) = known_sendable m.metadata
sendable (Message.upstream_metadata_ack m) = known_code m.result_code
sendable (Message.downstream_metadata m) = known_metadata m.metadata
sendable (Message.downstream_metadata_ack m) = known_code m.result_code
sendable Message.unknown = false
