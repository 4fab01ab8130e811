-- ===== src/Remote/Runner.antt =====
-- src/remote/runner-store.ts: the tables of a runner host and the messages of src/remote/contract.ts
-- that are delivered to it. The tables are lists of rows. `sha256`, `JSON.stringify` and the decoders of src/remote/codec.ts
-- are the fields of `Codec`.
pub mod Batch
pub mod Execution
pub mod Spent
pub mod Once
pub mod Generations
pub mod Fence
pub mod Replay
mod Tests
use workflowd.Base.{
  ℕ, suc, String, Bool, true, false, not, ◌&&◌, ◌||◌, Option, none, some, List, [], ◌∷◌, ◌++◌, max,
  if◌then◌else◌, ltb, leb, ◌==◌, str_eq, length, select, find?, exists, update,
}

-- `hostId` of the payload, and the rest of it.
pub record ClaudeResumeJob : Type 0 where
  pub host_id : String
  pub request : String

pub data CommandKind : Type 0 where
  probe : CommandKind
  claude_resume : ClaudeResumeJob → CommandKind

pub record RemoteCommand : Type 0 where
  pub command_id : String
  pub job_id : String
  pub attempt : ℕ
  pub generation : ℕ
  pub host_id : String
  pub expires_at : ℕ
  pub kind : CommandKind

pub data FenceDisposition : Type 0 where
  current cancelled : FenceDisposition

pub record RemoteFence : Type 0 where
  pub job_id : String
  pub generation : ℕ
  pub host_id : String
  pub disposition : FenceDisposition

pub data RemoteHostMessage : Type 0 where
  command : RemoteCommand → RemoteHostMessage
  fence : RemoteFence → RemoteHostMessage

pub data Rejection : Type 0 where
  malformed oversized : Rejection

pub record RunnerDeliveryInput : Type 0 where
  pub delivery_id : String
  pub bytes : List ℕ
  pub message : Option RemoteHostMessage
  pub rejection : Option Rejection

pub data Disposition : Type 0 where
  received duplicate fence malformed oversized : Disposition
  wrong_host expired stale conflict : Disposition

pub data InboxState : Type 0 where
  received result_ready result_published rejected : InboxState

pub record CurrentRow : Type 0 where
  pub job_id : String
  pub generation : ℕ
  pub command_id : Option String
  pub disposition : FenceDisposition
  pub updated_at : ℕ

pub record InboxRow : Type 0 where
  pub command_id : String
  pub job_id : String
  pub attempt : ℕ
  pub generation : ℕ
  pub host_id : String
  pub envelope_json : String
  pub state : InboxState
  pub execution_count : ℕ
  pub received_at : ℕ

pub record DeliveryRow : Type 0 where
  pub delivery_id : String
  pub command_id : Option String
  pub payload_sha256 : String
  pub payload_bytes : ℕ
  pub disposition : Disposition
  pub received_at : ℕ

pub record OutboxRow : Type 0 where
  pub result_id : String
  pub command_id : String
  pub envelope_json : String
  pub created_at : ℕ
  pub published_at : Option ℕ

pub record Runner : Type 0 where
  pub current : List CurrentRow
  pub inbox : List InboxRow
  pub deliveries : List DeliveryRow
  pub outbox : List OutboxRow

-- What a recorded delivery is answered with.
pub record Receipt : Type 0 where
  pub delivery_id : String
  pub command_id : Option String
  pub disposition : Disposition

abbrev pub current_of : String → CurrentRow → Bool
current_of job row = str_eq row.job_id job

abbrev pub at_generation : String → ℕ → CurrentRow → Bool
at_generation job generation row = current_of job row && row.generation == generation

abbrev pub inbox_is : String → InboxRow → Bool
inbox_is id row = str_eq row.command_id id

abbrev pub delivery_is : String → DeliveryRow → Bool
delivery_is id row = str_eq row.delivery_id id

abbrev pub is_received : Disposition → Bool
is_received Disposition.received = true
is_received _ = false

-- The outcome of a resumed turn, as a result carries it; a probe always succeeds.
pub data Answer : Type 0 where
  probed : Answer
  succeeded : String → Answer
  failed : String → Option String → Answer

pub record RemoteResult : Type 0 where
  pub result_id : String
  pub command_id : String
  pub job_id : String
  pub attempt : ℕ
  pub generation : ℕ
  pub host_id : String
  pub answer : Answer
  pub observed_at : ℕ

pub record Codec : Type 0 where
  pub sha256 : List ℕ → String
  pub stringify : RemoteCommand → String
  pub decode_command : String → Option RemoteCommand
  pub stringify_result : RemoteResult → String
  pub decode_result : String → Option RemoteResult
