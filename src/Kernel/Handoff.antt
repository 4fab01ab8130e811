-- ===== src/Kernel/Handoff.antt =====
-- src/kernel/job-store.ts, `enqueueFromDelivery`: a ready delivery becomes a job, once.
pub mod Once
use workflowd.Base.{
  ℕ, String, Bool, true, false, not, ◌&&◌, Option, none, some, List, [], ◌∷◌, ◌++◌, if◌then◌else◌,
  ltb, ◌==◌, str_eq, find?, exists, update,
}
use workflowd.Kernel.Db.{
  InstanceRow, JobRow, JobState, Db, input_error, conflict, data_error, Outcome, ok, err, Codec,
  bounded_payload, instance_is,
}
use workflowd.Kernel.Deliveries.{Status, fresh, duplicate, identifier}
use workflowd.Kernel.Consume.{
  ConsumeDeliveryInput, ready_for, matched_for, set_cursor, consume_row, consume_wait,
}
use workflowd.Kernel.Jobs.{job_is}

pub record EnqueueJobInput : Type 0 where
  pub job_id : String
  pub delivery : ConsumeDeliveryInput
  pub input_version : ℕ
  pub input : String
  pub max_attempts : ℕ
  pub run_at : ℕ
  pub created_at : ℕ

pub record EnqueueResult : Type 0 where
  pub status : Status
  pub event_cursor : ℕ

unfoldable pub valid_enqueue : EnqueueJobInput → Bool
valid_enqueue i =
    identifier i.job_id
    && identifier i.delivery.instance_id
    && identifier i.delivery.wait_id
    && ltb 0 i.delivery.event_sequence
    && ltb 0 i.input_version
    && ltb 0 i.max_attempts
    && bounded_payload i.input

abbrev pub same_job : EnqueueJobInput → JobRow → Bool
same_job i j =
    str_eq j.instance_id i.delivery.instance_id
    && str_eq j.wait_id i.delivery.wait_id
    && j.event_sequence == i.delivery.event_sequence
    && j.expected_cursor == i.delivery.expected_cursor
    && j.input_version == i.input_version
    && str_eq j.input_json i.input
    && j.max_attempts == i.max_attempts
    && j.run_at == i.run_at
    && j.created_at == i.created_at

abbrev pub new_job : EnqueueJobInput → JobRow
new_job i = record {
  job_id = i.job_id;
  instance_id = i.delivery.instance_id;
  wait_id = i.delivery.wait_id;
  event_sequence = i.delivery.event_sequence;
  expected_cursor = i.delivery.expected_cursor;
  input_version = i.input_version;
  input_json = i.input;
  state = JobState.ready;
  attempt = 0;
  max_attempts = i.max_attempts;
  run_at = i.run_at;
  created_at = i.created_at;
  lease = none;
  failure = none;
  updated_at = i.created_at;
}

abbrev pub at_cursor : ConsumeDeliveryInput → InstanceRow → Bool
at_cursor d row = instance_is d.instance_id row && row.event_cursor == d.expected_cursor

-- The `WHERE` of the insertion.
abbrev pub enqueueable : ConsumeDeliveryInput → Db → Bool
enqueueable d db =
    exists (at_cursor d) db.instances
    && (exists (ready_for d) db.deliveries && exists (matched_for d) db.waits)

-- The insertion and the three updates that follow it.
unfoldable pub with_job : EnqueueJobInput → Db → Db
with_job i db = record db {
  jobs = db.jobs ++ new_job i ∷ [];
  instances = update (at_cursor i.delivery) (set_cursor i.delivery.event_sequence) db.instances;
  deliveries = update (ready_for i.delivery) consume_row db.deliveries;
  waits = update (matched_for i.delivery) consume_wait db.waits;
}

unfoldable pub enqueue_from_delivery : Codec → EnqueueJobInput → Db → Outcome EnqueueResult
unfolding valid_enqueue with_job
enqueue_from_delivery k i db =
    if not (valid_enqueue i) then err input_error else elim (find? (job_is i.job_id) db.jobs) [
      | some j ↦
          if not (k.job_decodes j)
          then err (data_error "job")
          else (if same_job i j
              then ok db (record { status = duplicate; event_cursor = j.event_sequence })
              else err (conflict "job"))
      | none ↦
          if enqueueable i.delivery db
          then ok (with_job i db)
              (record { status = fresh; event_cursor = i.delivery.event_sequence })
          else err (conflict "delivery")
    ]
