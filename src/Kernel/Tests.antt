-- ===== src/Kernel/Tests.antt =====
-- Runs of the kernel operations on concrete tables, and the theorems at those inputs.
mod Jobs
use workflowd.Base.{
  String, true, false, none, some, List, [], ◌∷◌, ◌++◌, ◌≡◌, ◌≢◌, ◌<◌, refl, ap, str_eq, arith,
  if◌then◌else◌, ◌==◌, find?, exists, All,
}
use mathlib.Core.Bool.{false≢true}
use workflowd.Kernel.Db.{
  EventCondition, JobRow, InstanceRow, WaitRow, WaitState, DeliveryRow, DeliveryState, instance_is,
  wait_is, delivery_is, Db, ok, err, Codec, after, bounded_text, bounded_payload, lease_error,
  conflict,
}
use workflowd.Kernel.Deliveries.{fresh, duplicate, insert_deliveries, valid_condition}
use workflowd.Kernel.Instances.{WorkflowInstanceInput, create_instance}
use workflowd.Kernel.Events.{
  RecordEventInput, RecordEventResult, new_event, record_event, with_event,
}
use workflowd.Kernel.Events.Log.{record_event-appends, record_event_again}
use workflowd.Kernel.Consume.Once.{IsDeliverable, consume_once}
use workflowd.Kernel.Handoff.Once.{enqueue_once, enqueue_effect}
use workflowd.Kernel.Claims.Rounds.{Claims}
use workflowd.Kernel.Claims.Fencing.{Keyed, Held, claim_fences, claim_matching-Held}
use workflowd.Kernel.Results.Once.{IsClaimed, complete_needs_lease, complete_again}
use workflowd.Kernel.Waits.{RegisterWaitInput, register_wait}
use workflowd.Kernel.Consume.{ConsumeDeliveryInput, valid_consume, with_consumed, consume_delivery}
use workflowd.Kernel.Handoff.{
  EnqueueJobInput, EnqueueResult, valid_enqueue, new_job, with_job, enqueue_from_delivery,
}
use workflowd.Kernel.Jobs.{
  ClaimAuthority, FailureInput, valid_failure, job_is, heartbeat, fail, retry,
}
use workflowd.Kernel.Claims.{ClaimInput, JobClaim, claim_matching}
use workflowd.Kernel.Results.{
  CompleteInput, valid_complete, result_of, new_result, same_result, complete,
}
use workflowd.Kernel.History.{Call, creates, records, registers, claims, fails, step, run, empty_db}
use workflowd.Kernel.History.Completed.{complete_once}
use workflowd.Kernel.History.Invariant.{Inv, run-empty-Inv}

abbrev codec : Codec
codec = record {
  instance_decodes = λ _. true;
  event_decodes = λ _. true;
  wait_decodes = λ _. true;
  delivery_decodes = λ _. true;
  job_decodes = λ _. true;
  result_decodes = λ _. true;
  kind_of = λ _. none;
}

abbrev completion : EventCondition
completion = record {
  type = "agent.session.completed";
  version = 1;
  key = "child";
  correlation = "child:1";
}

abbrev instance_input : WorkflowInstanceInput
instance_input = record {
  instance_id = "handoff";
  workflow_type = "wait_for_agent";
  workflow_version = 1;
  workflow_key = "child";
  payload_json = "{}";
  created_at = 10;
}

abbrev event_input : RecordEventInput
event_input = record {
  source = "opencode";
  source_event_id = "child-1";
  condition = completion;
  payload_json = "{}";
  recorded_at = 20;
}

abbrev wait_input : RegisterWaitInput
wait_input = record {
  instance_id = "handoff";
  wait_id = "child-done";
  condition = completion;
  registered_at = 30;
}

abbrev delivery_input : ConsumeDeliveryInput
delivery_input = record {
  instance_id = "handoff";
  wait_id = "child-done";
  event_sequence = 1;
  expected_cursor = 0;
}

abbrev job_input : EnqueueJobInput
job_input = record {
  job_id = "handoff:resume-parent";
  delivery = delivery_input;
  input_version = 1;
  input = "{}";
  max_attempts = 2;
  run_at = 40;
  created_at = 40;
}

abbrev claim_input : ClaimInput
claim_input = record { worker_id = "worker-1"; now = 50; lease_duration_ms = 100 }

abbrev uuid : String → String
uuid id = "token-1"

abbrev message : JobRow → String
message j = "{}"

-- The instance is created before the event, which is recorded before the wait is registered.
abbrev arrived_first : List Call
arrived_first = creates instance_input ∷ records event_input ∷ registers wait_input ∷ []

run-empty-Inv_example :
    Inv (
      run codec empty_db (creates instance_input ∷ records event_input ∷ registers wait_input ∷ []))
run-empty-Inv_example = run-empty-Inv codec arrived_first

ready_db : Db
unfolding run step empty_db create_instance record_event with_event register_wait insert_deliveries
    bounded_text bounded_payload valid_condition
ready_db = run codec empty_db arrived_first

abbrev waiting_db : Db
waiting_db = run codec empty_db (creates instance_input ∷ registers wait_input ∷ [])

abbrev recorded : RecordEventResult
recorded = record {
  status = fresh;
  sequence = 1;
  recorded_at = 20;
  deliveries = record { instance_id = "handoff"; wait_id = "child-done"; event_sequence = 1 } ∷ [];
}

event_recorded :
    record_event codec event_input waiting_db
    ≡ ok (after waiting_db (record_event codec event_input waiting_db)) recorded
unfolding run step empty_db create_instance record_event with_event register_wait insert_deliveries
    bounded_text bounded_payload valid_condition
event_recorded = refl

record_event-appends_example :
    ((after waiting_db (record_event codec event_input waiting_db)).events
      ≡ waiting_db.events ++ new_event event_input 1 ∷ [])
    × All (λ e. e.sequence < 1) waiting_db.events
record_event-appends_example =
    record_event-appends codec event_input waiting_db
      (after waiting_db (record_event codec event_input waiting_db)) recorded event_recorded refl

record_event_again_example :
    record_event codec event_input (after waiting_db (record_event codec event_input waiting_db))
    ≡ ok
        (after waiting_db (record_event codec event_input waiting_db))
        (record { status = duplicate; sequence = 1; recorded_at = 20; deliveries = [] })
record_event_again_example =
    record_event_again codec event_input waiting_db
      (after waiting_db (record_event codec event_input waiting_db)) recorded event_recorded refl
      refl

abbrev spent_db : Db
spent_db = after ready_db (consume_delivery delivery_input ready_db)

delivery_consumed :
    consume_delivery delivery_input ready_db
    ≡ ok spent_db (record { status = fresh; event_cursor = 1 })
unfolding ready_db consume_delivery bounded_text
delivery_consumed = refl

abbrev waiting_row : InstanceRow
waiting_row = record {
  instance_id = "handoff";
  workflow_type = "wait_for_agent";
  workflow_version = 1;
  workflow_key = "child";
  payload_json = "{}";
  event_cursor = 0;
  created_at = 10;
}

abbrev matched_wait : WaitRow
matched_wait = record {
  instance_id = "handoff";
  wait_id = "child-done";
  condition = completion;
  after_sequence = 0;
  state = WaitState.matched;
  registered_at = 30;
}

abbrev ready_delivery : DeliveryRow
ready_delivery = record {
  instance_id = "handoff";
  wait_id = "child-done";
  event_sequence = 1;
  state = DeliveryState.ready;
  delivered_at = 20;
}

ready_db-IsDeliverable :
    IsDeliverable delivery_input ready_db waiting_row matched_wait ready_delivery
unfolding ready_db
ready_db-IsDeliverable = record {
  instance = refl;
  cursor = refl;
  later = omega arith;
  wait = refl;
  matched = refl;
  delivery = refl;
  sequence = refl;
  ready = refl;
}

delivery_valid : valid_consume delivery_input ≡ true
unfolding valid_consume bounded_text
delivery_valid = refl

consume_once_example :
    (consume_delivery delivery_input ready_db
      ≡ ok (with_consumed delivery_input ready_db) (record { status = fresh; event_cursor = 1 }))
    × (consume_delivery
          (record delivery_input { expected_cursor = 1 })
          (with_consumed delivery_input ready_db)
        ≡ (if 0 == 1
            then ok
                (with_consumed delivery_input ready_db)
                (record { status = duplicate; event_cursor = 1 })
            else err (conflict "wait")))
consume_once_example =
    consume_once delivery_input ready_db waiting_row matched_wait ready_delivery
      ready_db-IsDeliverable 1 delivery_valid

abbrev queued_db : Db
queued_db = after ready_db (enqueue_from_delivery codec job_input ready_db)

abbrev enqueued : EnqueueResult
enqueued = record { status = fresh; event_cursor = 1 }

delivery_enqueued : enqueue_from_delivery codec job_input ready_db ≡ ok queued_db enqueued
unfolding ready_db enqueue_from_delivery bounded_text bounded_payload
delivery_enqueued = refl

job_free : find? (job_is "handoff:resume-parent") ready_db.jobs ≡ none
unfolding ready_db
job_free = refl

job_valid : valid_enqueue job_input ≡ true
unfolding valid_enqueue bounded_text bounded_payload
job_valid = refl

abbrev handed_over : Db
handed_over = with_job job_input ready_db

enqueue_effect_example :
    (enqueue_from_delivery codec job_input ready_db ≡ ok handed_over enqueued)
    × (find? (job_is "handoff:resume-parent") handed_over.jobs ≡ some (new_job job_input))
    × (find? (instance_is "handoff") handed_over.instances
        ≡ some (record waiting_row { event_cursor = 1 }))
    × (find? (wait_is "handoff" "child-done") handed_over.waits
        ≡ some (record matched_wait { state = WaitState.consumed }))
    × (find? (delivery_is "handoff" "child-done") handed_over.deliveries
        ≡ some (record ready_delivery { state = DeliveryState.consumed }))
    × (enqueue_from_delivery codec job_input handed_over
        ≡ ok handed_over (record { status = duplicate; event_cursor = 1 }))
enqueue_effect_example =
    enqueue_effect codec job_input ready_db waiting_row matched_wait ready_delivery
      ready_db-IsDeliverable job_free job_valid refl

abbrev second_job : EnqueueJobInput
second_job = record job_input { job_id = "handoff:second" }

second_valid : valid_enqueue second_job ≡ true
unfolding valid_enqueue bounded_text bounded_payload
second_valid = refl

second_free : exists (job_is "handoff:second") queued_db.jobs ≡ false
unfolding ready_db enqueue_from_delivery bounded_text bounded_payload
second_free = refl

enqueue_once_example : enqueue_from_delivery codec second_job queued_db ≡ err (conflict "delivery")
enqueue_once_example =
    enqueue_once codec job_input second_job ready_db queued_db enqueued delivery_enqueued refl refl
      second_valid second_free
