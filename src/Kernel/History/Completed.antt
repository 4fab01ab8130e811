-- ===== src/Kernel/History/Completed.antt =====
-- Completions of src/kernel/job-store.ts in the histories of the kernel tables.
use workflowd.Base.{
  ℕ, ◌≡◌, ◌≢◌, refl, sym, ap, ◌∙◌, subst, String, Bool, true, List, [], ◌∷◌, inl, inr, arith, find?,
  exists, exists-append, exists-find?, exists-find?_hit, eq_iff, Option-cases,
}
use workflowd.Kernel.Db.{Db, JobRow, ResultRow, ok, Codec, after}
use workflowd.Kernel.Deliveries.{fresh}
use workflowd.Kernel.Instances.{WorkflowInstanceInput, stored_instance, create_instance}
use workflowd.Kernel.Events.{RecordEventInput, record_event, with_event}
use workflowd.Kernel.Waits.{RegisterWaitInput, register_wait}
use workflowd.Kernel.Consume.{ConsumeDeliveryInput, consume_delivery, with_consumed, refused}
use workflowd.Kernel.Handoff.{EnqueueJobInput, enqueue_from_delivery, with_job}
use workflowd.Kernel.Jobs.{ClaimAuthority, FailureInput, heartbeat, fail, retry, retry_row}
use workflowd.Kernel.Claims.{ClaimInput, claim_matching}
use workflowd.Kernel.Claims.Rounds.{Leaves, Claims-after, claim_candidate_cases, claim_matching_inv}
use workflowd.Kernel.Results.{
  CompleteInput, complete, result_of, new_result, stored_result, with_result,
}
use workflowd.Kernel.Results.Once.{stored_after}
use workflowd.Kernel.History.{
  Call, creates, records, registers, consumes, enqueues, claims, heartbeats, fails, retries,
  completes, step, run,
}

abbrev has_result : String → Db → Bool
has_result id db = exists (result_of id) db.results

module _ (k : Codec) (db : Db) where
  create_results :
      (i : WorkflowInstanceInput) → (after db (create_instance k i db)).results ≡ db.results
  unfolding create_instance stored_instance
  create_results i = ground arith

  record_results : (i : RecordEventInput) → (after db (record_event k i db)).results ≡ db.results
  unfolding record_event with_event
  record_results i = ground arith

  register_results :
      (i : RegisterWaitInput) → (after db (register_wait k i db)).results ≡ db.results
  unfolding register_wait
  register_results i = ground arith

  consume_results :
      (i : ConsumeDeliveryInput) → (after db (consume_delivery i db)).results ≡ db.results
  unfolding consume_delivery with_consumed refused
  consume_results i = ground arith

  enqueue_results :
      (i : EnqueueJobInput) → (after db (enqueue_from_delivery k i db)).results ≡ db.results
  unfolding enqueue_from_delivery with_job
  enqueue_results i = ground arith

  heartbeat_results :
      (a : ClaimAuthority) (duration : ℕ)
      → (after db (heartbeat a duration db)).results ≡ db.results
  unfolding heartbeat
  heartbeat_results a duration = ground arith

  fail_results : (i : FailureInput) → (after db (fail i db)).results ≡ db.results
  unfolding fail
  fail_results i = ground arith

  retry_results :
      (i : FailureInput) (run_at : ℕ) → (after db (retry i run_at db)).results ≡ db.results
  unfolding retry retry_row
  retry_results i run_at = ground arith

  complete_results :
      (i : CompleteInput) (id : String)
      → has_result id db ≡ true
      → has_result id (after db (complete k i db)) ≡ true
  unfolding complete stored_result with_result
  complete_results i id h =
      ground (arith, exists-append (result_of id) db.results (new_result i ∷ []))

module _ (k : Codec) (uuid : String → String) (message : JobRow → String) (remote : Bool)
    (i : ClaimInput) (rows : List ResultRow) where
  abbrev Same : Db → Type 0
  Same db = db.results ≡ rows

  claim_results : (db : Db) → Same db → Same (after db (claim_matching k uuid message remote i db))
  claim_results db same =
      Claims-after Same (λ _ _. Unit {0}) db (claim_matching k uuid message remote i db)
        (claim_matching_inv k uuid message remote i Same (λ _ _. Unit {0})
          (λ id db s.
            claim_candidate_cases k uuid message remote i (Leaves Same (λ _ _. Unit {0})) id db
              (λ e. s) s (λ j f. (s, tt)) (λ j f. s))
          db same)

same_results :
    (id : String) (rows rows' : List ResultRow)
    → rows' ≡ rows
    → exists (result_of id) rows ≡ true
    → exists (result_of id) rows' ≡ true
same_results id rows rows' e h = ap (exists (result_of id)) e ∙ h

step-keeps :
    (k : Codec) (db : Db) (c : Call) (id : String)
    → has_result id db ≡ true
    → has_result id (step k db c) ≡ true
unfolding step
step-keeps k db (creates i) id h = same_results id db.results _ (create_results k db i) h
step-keeps k db (records i) id h = same_results id db.results _ (record_results k db i) h
step-keeps k db (registers i) id h = same_results id db.results _ (register_results k db i) h
step-keeps k db (consumes i) id h = same_results id db.results _ (consume_results k db i) h
step-keeps k db (enqueues i) id h = same_results id db.results _ (enqueue_results k db i) h
step-keeps k db (claims remote uuid message i) id h =
    same_results id db.results _ (claim_results k uuid message remote i db.results db refl) h
step-keeps k db (heartbeats a duration) id h =
    same_results id db.results _ (heartbeat_results k db a duration) h
step-keeps k db (fails i) id h = same_results id db.results _ (fail_results k db i) h
step-keeps k db (retries i run_at) id h =
    same_results id db.results _ (retry_results k db i run_at) h
step-keeps k db (completes i) id h = complete_results k db i id h

run-keeps :
    (k : Codec) (db : Db) (cs : List Call) (id : String)
    → has_result id db ≡ true
    → has_result id (run k db cs) ≡ true
unfolding run
run-keeps k db [] id h = h
run-keeps k db (c ∷ cs) id h = run-keeps k (step k db c) cs id (step-keeps k db c id h)

-- Where the job has a result, a completion changes nothing, and is not the one that stores it.
completed_already :
    (k : Codec) (j : CompleteInput) (db db' : Db)
    → has_result j.authority.job_id db ≡ true
    → (after db (complete k j db) ≡ db) × (complete k j db ≢ ok db' fresh)
unfolding complete stored_result
completed_already k j db db' h =
    elim (Option-cases (find? (result_of j.authority.job_id) db.results)) [
      | inl free ↦ absurd (ground (arith, exists-find? (result_of j.authority.job_id) db.results))
      | inr (r, found) ↦ (ground arith, λ e. ground arith)
    ]

-- A job is completed once: after a completion was stored, and any other calls on the tables, no
-- completion of the job by any claim stores a result or changes the tables.
pub complete_once :
    (k : Codec) (i j : CompleteInput) (db db' db'' : Db) (cs : List Call)
    → complete k i db ≡ ok db' fresh
    → j.authority.job_id ≡ i.authority.job_id
    → (after (run k db' cs) (complete k j (run k db' cs)) ≡ run k db' cs)
      × (complete k j (run k db' cs) ≢ ok db'' fresh)
complete_once k i j db db' db'' cs e same =
    let id = i.authority.job_id in
    let found : has_result id db' ≡ true =
      exists-find?_hit (result_of id) (result_of id) db'.results (new_result i)
        (stored_after k i db db' e) (ground (arith, eq_iff id id)) in
    completed_already k j (run k db' cs) db''
      (subst (λ n. has_result n (run k db' cs) ≡ true) (sym same) (run-keeps k db' cs id found))
