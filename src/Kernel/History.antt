-- ===== src/Kernel/History.antt =====
-- Histories of the kernel tables: any calls of the operations of src/kernel/event-store.ts and
-- src/kernel/job-store.ts, in any order. A call that fails is rolled back.
pub mod Invariant
pub mod Completed
use workflowd.Base.{ℕ, String, Bool, List, [], ◌∷◌}
use workflowd.Kernel.Db.{Db, JobRow, Outcome, Codec, after}
use workflowd.Kernel.Instances.{WorkflowInstanceInput, create_instance}
use workflowd.Kernel.Events.{RecordEventInput, record_event}
use workflowd.Kernel.Waits.{RegisterWaitInput, register_wait}
use workflowd.Kernel.Consume.{ConsumeDeliveryInput, consume_delivery}
use workflowd.Kernel.Handoff.{EnqueueJobInput, enqueue_from_delivery}
use workflowd.Kernel.Jobs.{ClaimAuthority, FailureInput, heartbeat, fail, retry}
use workflowd.Kernel.Claims.{ClaimInput, claim_matching}
use workflowd.Kernel.Results.{CompleteInput, complete}

pub data Call : Type 0 where
  creates : WorkflowInstanceInput → Call
  records : RecordEventInput → Call
  registers : RegisterWaitInput → Call
  consumes : ConsumeDeliveryInput → Call
  enqueues : EnqueueJobInput → Call
  claims : Bool → (String → String) → (JobRow → String) → ClaimInput → Call
  heartbeats : ClaimAuthority → ℕ → Call
  fails : FailureInput → Call
  retries : FailureInput → ℕ → Call
  completes : CompleteInput → Call

unfoldable pub step : Codec → Db → Call → Db
step k db (creates i) = after db (create_instance k i db)
step k db (records i) = after db (record_event k i db)
step k db (registers i) = after db (register_wait k i db)
step k db (consumes i) = after db (consume_delivery i db)
step k db (enqueues i) = after db (enqueue_from_delivery k i db)
step k db (claims remote uuid message i) = after db (claim_matching k uuid message remote i db)
step k db (heartbeats a duration) = after db (heartbeat a duration db)
step k db (fails i) = after db (fail i db)
step k db (retries i run_at) = after db (retry i run_at db)
step k db (completes i) = after db (complete k i db)

unfoldable pub run : Codec → Db → List Call → Db
run k db [] = db
run k db (c ∷ cs) = run k (step k db c) cs

unfoldable pub empty_db : Db
empty_db = record {
  instances = [];
  events = [];
  waits = [];
  deliveries = [];
  jobs = [];
  results = [];
  dispatches = [];
}
