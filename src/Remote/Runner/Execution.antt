-- ===== src/Remote/Runner/Execution.antt =====
-- src/remote/runner-store.ts, the execution of commands and their results. `executeClaudeResume`
-- claims the execution in one transaction, runs the turns outside of any, and stores the result in
-- another: what the run came to is an argument, `none` where the process ends before it.
pub mod Recover
use Prim.Native.String.{◌++◌ as ◌<>◌}
use workflowd.Base.{
  ℕ, String, Bool, true, false, ◌&&◌, ◌||◌, Option, none, some, List, [], ◌∷◌, ◌++◌, map,
  if◌then◌else◌, ltb, ◌==◌, str_eq, select, find?, exists, update, order_by, before_text,
}
use workflowd.Remote.Runner.{
  ClaudeResumeJob, CommandKind, probe, claude_resume, RemoteCommand, FenceDisposition, cancelled,
  Disposition, InboxState, result_ready, result_published, CurrentRow, InboxRow, OutboxRow, Runner,
  at_generation, inbox_is, Answer, probed, failed, RemoteResult, Codec,
}
use workflowd.Remote.Runner.Execution.Recover.{
  is_open, is_current, bound_to, recovers, before_received, cons_decoded, recover_received,
}

abbrev pub result_of : RemoteCommand → Answer → ℕ → RemoteResult
result_of c answer at = record {
  result_id = "result-" <> c.command_id;
  command_id = c.command_id;
  job_id = c.job_id;
  attempt = c.attempt;
  generation = c.generation;
  host_id = c.host_id;
  answer = answer;
  observed_at = at;
}

abbrev pub outbox_of : String → OutboxRow → Bool
outbox_of id row = str_eq row.command_id id

-- `INSERT … ON CONFLICT (command_id) DO NOTHING`.
abbrev pub put_result : Codec → RemoteCommand → RemoteResult → ℕ → List OutboxRow → List OutboxRow
put_result k c result at rows =
    if exists (outbox_of c.command_id) rows
    then rows
    else rows
      ++ (record {
        result_id = result.result_id;
        command_id = c.command_id;
        envelope_json = k.stringify_result result;
        created_at = at;
        published_at = none;
      }
          ∷ [])

abbrev pub open_row : String → InboxRow → Bool
open_row id row = inbox_is id row && is_open row.state

abbrev pub probe_row : InboxRow → InboxRow
probe_row row = record row { state = result_ready; execution_count = 1 }

-- `executeProbe`. Without the command's row the foreign key of the outbox fails: `none`.
unfoldable pub execute_probe : Codec → RemoteCommand → ℕ → Runner → Runner × Option RemoteResult
execute_probe k c at db =
    let result = result_of c probed at in
    if exists (inbox_is c.command_id) db.inbox
    then (
      record db {
        inbox = update (open_row c.command_id) probe_row db.inbox;
        outbox = put_result k c result at db.outbox;
      },
      some result,
    )
    else (db, none)

abbrev pub ready_row : InboxRow → InboxRow
ready_row row = record row { state = result_ready }

-- `storeClaudeResult`.
unfoldable pub store_result : Codec → RemoteCommand → RemoteResult → ℕ → Runner → Runner
store_result k c result at db = record db {
  outbox = put_result k c result at db.outbox;
  inbox = update (open_row c.command_id) ready_row db.inbox;
}

-- What the executor says of a run, or of the recovery of one.
pub data Outcome : Type 0 where
  pending : Outcome
  ended : Answer → Outcome

pub data Resumed : Type 0 where
  answered : RemoteResult → Resumed
  wrong_kind undecodable still_pending interrupted unrecorded : Resumed

abbrev pub settle : Codec → RemoteCommand → Outcome → ℕ → Runner → Runner × Resumed
settle k c pending at db = (db, still_pending)
settle k c (ended answer) at db =
    let result = result_of c answer at in
    if exists (inbox_is c.command_id) db.inbox
    then (store_result k c result at db, answered result)
    else (db, unrecorded)

-- The execution that is still to be claimed.
abbrev pub unspent : String → InboxRow → Bool
unspent id row = open_row id row && row.execution_count == 0

abbrev pub spend_row : InboxRow → InboxRow
spend_row row = record row { execution_count = 1 }

abbrev pub spend : String → Runner → Runner
spend id db = record db { inbox = update (unspent id) spend_row db.inbox }

-- Without a recovery the interrupted execution has failed.
abbrev pub recovered :
    Option (ClaudeResumeJob → String → Outcome) → ClaudeResumeJob → String → Outcome
recovered none job id = ended (failed "execution_interrupted" none)
recovered (some run) job id = run job id

-- The claim was spent before: the stored result, or what a recovery of the run comes to.
unfoldable pub replay_resume :
    Codec
    → Option (ClaudeResumeJob → String → Outcome)
    → ClaudeResumeJob
    → RemoteCommand
    → ℕ
    → Runner
    → Runner × Resumed
replay_resume k recover job c at db = elim (find? (outbox_of c.command_id) db.outbox) [
  | some row ↦ (
    db,
    elim (k.decode_result row.envelope_json) [ some result ↦ answered result | none ↦ undecodable ],
  )
  | none ↦ settle k c (recovered recover job c.command_id) at db
]

-- The execution itself starts exactly where the claim finds the row.
abbrev pub starts_kind : CommandKind → String → Runner → Bool
starts_kind probe id db = false
starts_kind (claude_resume job) id db = exists (unspent id) db.inbox

abbrev pub starts : RemoteCommand → Runner → Bool
starts c db = starts_kind c.kind c.command_id db

unfoldable pub first_resume : Codec → Option Outcome → RemoteCommand → ℕ → Runner → Runner × Resumed
first_resume k none c at db = (db, interrupted)
first_resume k (some outcome) c at db = settle k c outcome at db

unfoldable pub resume_kind :
    Codec
    → Option (ClaudeResumeJob → String → Outcome)
    → Option Outcome
    → RemoteCommand
    → CommandKind
    → ℕ
    → Runner
    → Runner × Resumed
resume_kind k recover run c probe at db = (db, wrong_kind)
resume_kind k recover run c (claude_resume job) at db =
    if exists (unspent c.command_id) db.inbox
    then first_resume k run c at (spend c.command_id db)
    else replay_resume k recover job c at db

-- `executeClaudeResume`.
unfoldable pub execute_claude_resume :
    Codec
    → Option (ClaudeResumeJob → String → Outcome)
    → Option Outcome
    → RemoteCommand
    → ℕ
    → Runner
    → Runner × Resumed
unfolding resume_kind
execute_claude_resume k recover run c at db = resume_kind k recover run c c.kind at db

-- `pendingResults`.
abbrev pub is_unpublished : Option ℕ → Bool
is_unpublished none = true
is_unpublished (some at) = false

abbrev pub before_created : OutboxRow → OutboxRow → Bool
before_created a b =
    ltb a.created_at b.created_at
    || (a.created_at == b.created_at && before_text a.result_id b.result_id)

decode_results : Codec → List OutboxRow → Option (List RemoteResult)
decode_results k [] = some []
decode_results k (r ∷ rs) = cons_decoded (k.decode_result r.envelope_json) (decode_results k rs)

pub pending_results : Codec → Runner → Option (List RemoteResult)
unfolding decode_results
pending_results k db =
    decode_results k
      (order_by before_created (select (λ r. is_unpublished r.published_at) db.outbox))

abbrev pub result_is : String → OutboxRow → Bool
result_is id row = str_eq row.result_id id

-- The `WHERE` of the second update, on the row that the subquery finds.
abbrev pub commands_result : Option OutboxRow → InboxRow → Bool
commands_result none row = false
commands_result (some result) row = inbox_is result.command_id row

abbrev pub publish_row : InboxRow → InboxRow
publish_row row = record row { state = result_published }

-- `markResultPublished`.
unfoldable pub mark_result_published : String → ℕ → Runner → Runner
mark_result_published id at db =
    let outbox = update (result_is id) (λ r. record r { published_at = some at }) db.outbox in
    record db {
      outbox = outbox;
      inbox = update (commands_result (find? (result_is id) outbox)) publish_row db.inbox;
    }

-- `readCommand`.
pub record RunnerCommandRecord : Type 0 where
  pub command_id : String
  pub state : InboxState
  pub execution_count : ℕ

pub read_command : String → Runner → Option RunnerCommandRecord
read_command id db = elim (find? (inbox_is id) db.inbox) [
  | none ↦ none
  | some row ↦ some (record {
    command_id = row.command_id;
    state = row.state;
    execution_count = row.execution_count;
  })
]

-- `readDeliveryDispositions`.
pub read_delivery_dispositions : Runner → List Disposition
read_delivery_dispositions db = map (λ r. r.disposition) db.deliveries
