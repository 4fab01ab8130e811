-- ===== src/Remote/Runner/Tests.antt =====
-- Runs of a runner host's store on concrete tables, and the theorems at those inputs.
use workflowd.Base.{ℕ, String, true, false, none, some, List, [], ◌∷◌, ◌≤◌, ◌≡◌, refl, exists}
use workflowd.Remote.Runner.{
  claude_resume, RemoteCommand, FenceDisposition, RemoteFence, RemoteHostMessage, command,
  RunnerDeliveryInput, Runner, succeeded, Codec,
}
use workflowd.Remote.Runner.Batch.{record_delivery, record_deliveries, record_batch}
use workflowd.Remote.Runner.Execution.{
  ended, execute_claude_resume, first_resume, mark_result_published,
}
use workflowd.Remote.Runner.Once.{Call, batches, resumes, publishes, executions, executions-le-one}
use workflowd.Remote.Runner.Replay.{record_delivery_again}
use workflowd.Remote.Runner.Fence.{recovers_below, fence_supersedes}

abbrev codec : Codec
codec = record {
  sha256 = λ bytes. elim bytes [ [] ↦ "empty" | b ∷ bs ↦ "bytes" ];
  stringify = λ c. c.command_id;
  decode_command = λ json. none;
  stringify_result = λ r. r.result_id;
  decode_result = λ json. none;
}

abbrev resume : ℕ → RemoteCommand
resume generation = record {
  command_id = "c1";
  job_id = "j1";
  attempt = 1;
  generation = generation;
  host_id = "h1";
  expires_at = 100;
  kind = claude_resume (record { host_id = "h1"; request = "continue" });
}

abbrev fence : ℕ → RemoteFence
fence generation = record {
  job_id = "j1";
  generation = generation;
  host_id = "h1";
  disposition = FenceDisposition.current;
}

abbrev delivery : String → RemoteHostMessage → RunnerDeliveryInput
delivery id message = record {
  delivery_id = id;
  bytes = 1 ∷ 2 ∷ [];
  message = some message;
  rejection = none;
}

abbrev commands : RunnerDeliveryInput
commands = delivery "d2" (command (resume 1))

abbrev fenced : ℕ → RunnerDeliveryInput
fenced generation = delivery "d1" (RemoteHostMessage.fence (fence generation))

abbrev blank : Runner
blank = record { current = []; inbox = []; deliveries = []; outbox = [] }

-- The fence first, then the command that it opens; a resume cut off, and one after it.
abbrev history : List Call
history =
    batches "h1" (fenced 1 ∷ commands ∷ []) 5
    ∷ resumes (resume 1) none 6
    ∷ resumes (resume 1) (some (ended (succeeded "done"))) 7
    ∷ publishes "result-c1" 8
    ∷ []

runs_once : executions codec none "c1" history blank ≡ 1
unfolding executions record_batch record_delivery record_deliveries execute_claude_resume
    first_resume mark_result_published
runs_once = refl

executions-le-one_example : executions codec none "c1" history blank ≤ 1
executions-le-one_example = executions-le-one codec none "c1" history blank

record_delivery_again_example :
    record_delivery codec "h1" commands 9 (record_delivery codec "h1" commands 5 blank).0
    ≡ record_delivery codec "h1" commands 5 blank
record_delivery_again_example = record_delivery_again codec "h1" commands 5 9 blank

-- A command of generation 1 that was received, and then a fence of generation 2.
abbrev received : Runner
received = (record_batch codec "h1" (fenced 1 ∷ commands ∷ []) 5 blank).0

fence_supersedes_example :
    exists
      (recovers_below "j1" 2 (record_batch codec "h1" (fenced 2 ∷ []) 6 received).0.current)
      (record_batch codec "h1" (fenced 2 ∷ []) 6 received).0.inbox
    ≡ false
fence_supersedes_example = fence_supersedes codec "h1" (fenced 2 ∷ []) 6 received "j1" 2 refl

-- Before that fence the command is recovered.
waits_before : exists (recovers_below "j1" 2 received.current) received.inbox ≡ true
unfolding record_batch record_delivery record_deliveries
waits_before = refl
