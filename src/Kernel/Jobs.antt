-- ===== src/Kernel/Jobs.antt =====
-- src/kernel/job-store.ts: the authority of a claim, and what its holder does with the job short
-- of completing it: `heartbeat`, `fail`, `retry`; and the reads.
pub mod Tables
pub mod Distinct
pub mod Sound
use workflowd.Base.{
  ℕ, suc, ◌+◌, String, Bool, true, false, not, ◌&&◌, ◌||◌, Option, none, some, List, [], ◌∷◌, ◌++◌,
  map, if◌then◌else◌, ltb, leb, ◌==◌, str_eq, select, find?, exists, update, order_by, before_text,
}
use workflowd.Kernel.Db.{
  JobRow, JobState, Lease, Failure, FailureCategory, transient, permanent, Db, Error, input_error,
  lease_error, conflict, data_error, Outcome, ok, err, Codec, bounded_text, bounded_payload,
  max_identifier_bytes,
}
use workflowd.Kernel.Deliveries.{identifier}

pub record ClaimAuthority : Type 0 where
  pub job_id : String
  pub worker_id : String
  pub attempt : ℕ
  pub claim_token : String
  pub expected_lease_until : ℕ
  pub now : ℕ

abbrev pub job_is : String → JobRow → Bool
job_is id j = str_eq j.job_id id

abbrev pub is_leased : JobState → Bool
is_leased JobState.leased = true
is_leased _ = false

abbrev pub is_waiting : JobState → Bool
is_waiting JobState.ready = true
is_waiting JobState.retry_scheduled = true
is_waiting _ = false

abbrev pub is_succeeded : JobState → Bool
is_succeeded JobState.succeeded = true
is_succeeded _ = false

abbrev pub holds_lease : ClaimAuthority → Option Lease → Bool
holds_lease a none = false
holds_lease a (some l) =
    str_eq l.worker_id a.worker_id
    && str_eq l.claim_token a.claim_token
    && l.lease_until == a.expected_lease_until
    && ltb a.now l.lease_until

-- `authorityWhere`: the exact lease of the claim, and not expired.
abbrev pub authorized : ClaimAuthority → JobRow → Bool
authorized a j =
    job_is a.job_id j && is_leased j.state && j.attempt == a.attempt && holds_lease a j.lease

-- `heartbeat`.
abbrev pub extend : ClaimAuthority → ℕ → JobRow → JobRow
extend a until j = record j {
  lease =
      some (record { worker_id = a.worker_id; claim_token = a.claim_token; lease_until = until });
  updated_at = a.now;
}

unfoldable pub heartbeat : ClaimAuthority → ℕ → Db → Outcome ℕ
heartbeat a duration db =
    if not (ltb 0 duration)
    then err input_error
    else (if exists (authorized a) db.jobs
        then ok (record db { jobs = update (authorized a) (extend a (a.now + duration)) db.jobs })
            (a.now + duration)
        else err lease_error)

-- `fail`; a missing category is a permanent failure.
pub record FailureInput : Type 0 where
  pub authority : ClaimAuthority
  pub version : ℕ
  pub failure : String
  pub category : Option FailureCategory

unfoldable pub valid_failure : FailureInput → Bool
valid_failure i = ltb 0 i.version && bounded_payload i.failure

abbrev pub category_of : Option FailureCategory → FailureCategory
category_of none = permanent
category_of (some c) = c

-- A caller's category is `transient`, `permanent` or `operator_required`.
abbrev pub failed_state : Option FailureCategory → JobState
failed_state (some FailureCategory.operator_required) = JobState.operator_required
failed_state _ = JobState.failed

abbrev pub close : FailureInput → JobState → FailureCategory → JobRow → JobRow
close i state category j = record j {
  state = state;
  lease = none;
  failure = some (record { category = category; version = i.version; json = i.failure });
  updated_at = i.authority.now;
}

unfoldable pub fail : FailureInput → Db → Outcome JobState
unfolding valid_failure
fail i db =
    if not (valid_failure i)
    then err input_error
    else (if exists (authorized i.authority) db.jobs
        then ok
            (record db {
              jobs =
                  update (authorized i.authority)
                    (close i (failed_state i.category) (category_of i.category)) db.jobs;
            })
            (failed_state i.category)
        else err lease_error)

-- `retry`: the last attempt fails for good.
pub data RetryResult : Type 0 where
  retry_scheduled : ℕ → ℕ → RetryResult
  failed : ℕ → RetryResult

abbrev pub reschedule : FailureInput → JobState → ℕ → JobRow → JobRow
reschedule i state run_at j = record (close i state transient j) { run_at = run_at }

unfoldable pub retry_row : FailureInput → ℕ → JobRow → Db → Outcome RetryResult
retry_row i run_at row db =
    let exhausted = leb row.max_attempts row.attempt in
    let state = if exhausted then JobState.failed else JobState.retry_scheduled in
    ok (record db { jobs = update (authorized i.authority) (reschedule i state run_at) db.jobs })
      (if exhausted then failed row.attempt else retry_scheduled row.attempt run_at)

unfoldable pub retry : FailureInput → ℕ → Db → Outcome RetryResult
unfolding valid_failure retry_row
retry i run_at db =
    if not (valid_failure i)
    then err input_error
    else elim (find? (authorized i.authority) db.jobs) [
      | none ↦ err lease_error
      | some row ↦ retry_row i run_at row db
    ]

-- `readJob` and `readRecoverable`: the rows, once they decode.
pub read_job : Codec → String → Db → Outcome (Option JobRow)
read_job k id db =
    if not (identifier id) then err input_error else elim (find? (job_is id) db.jobs) [
      | none ↦ ok db none
      | some j ↦ if k.job_decodes j then ok db (some j) else err (data_error "job")
    ]

abbrev pub before_job : JobRow → JobRow → Bool
before_job a b = ltb a.run_at b.run_at || (a.run_at == b.run_at && before_text a.job_id b.job_id)

pub read_recoverable : Codec → Db → Outcome (List JobRow)
read_recoverable k db =
    let rows =
      order_by before_job (select (λ j. is_waiting j.state || is_leased j.state) db.jobs) in
    if exists (λ j. not (k.job_decodes j)) rows then err (data_error "job") else ok db rows
