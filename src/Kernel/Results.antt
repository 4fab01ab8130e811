-- ===== src/Kernel/Results.antt =====
-- src/kernel/job-store.ts, `complete` and `readResult`.
pub mod Tables
pub mod Once
use workflowd.Base.{
  ℕ, String, Bool, true, false, not, ◌&&◌, ◌||◌, Option, none, some, List, [], ◌∷◌, ◌++◌,
  if◌then◌else◌, ltb, ◌==◌, str_eq, find?, exists, update,
}
use workflowd.Kernel.Db.{
  JobRow, JobState, ResultRow, Db, input_error, lease_error, conflict, data_error, Outcome, ok, err,
  Codec, bounded_payload,
}
use workflowd.Kernel.Deliveries.{Status, fresh, duplicate, identifier}
use workflowd.Kernel.Jobs.{ClaimAuthority, job_is, is_succeeded, authorized}

pub record CompleteInput : Type 0 where
  pub authority : ClaimAuthority
  pub result_id : String
  pub result_version : ℕ
  pub result : String

unfoldable pub valid_complete : CompleteInput → Bool
valid_complete i = identifier i.result_id && ltb 0 i.result_version && bounded_payload i.result

abbrev pub result_of : String → ResultRow → Bool
result_of id r = str_eq r.job_id id

-- The result was stored under this very claim.
abbrev pub by_claim : ClaimAuthority → ResultRow → Bool
by_claim a r =
    r.attempt == a.attempt
    && str_eq r.worker_id a.worker_id
    && str_eq r.claim_token a.claim_token
    && r.lease_until == a.expected_lease_until

abbrev pub same_result : CompleteInput → ResultRow → Bool
same_result i r =
    str_eq r.result_id i.result_id
    && r.result_version == i.result_version
    && str_eq r.result_json i.result

abbrev pub succeed : ℕ → JobRow → JobRow
succeed now j = record j { state = JobState.succeeded; lease = none; updated_at = now }

abbrev pub new_result : CompleteInput → ResultRow
new_result i = record {
  result_id = i.result_id;
  job_id = i.authority.job_id;
  attempt = i.authority.attempt;
  worker_id = i.authority.worker_id;
  claim_token = i.authority.claim_token;
  lease_until = i.authority.expected_lease_until;
  result_version = i.result_version;
  result_json = i.result;
  completed_at = i.authority.now;
}

-- A stored result: its own claim may repeat it, and nothing else.
unfoldable pub stored_result : Codec → CompleteInput → ResultRow → Db → Outcome Status
stored_result k i r db =
    if not (k.result_decodes r)
    then err (data_error "result")
    else (if not (by_claim i.authority r)
        then err lease_error
        else (if same_result i r then ok db duplicate else err (conflict "result")))

-- The update found no row under the authority.
abbrev refused : CompleteInput → Option JobRow → Outcome Status
refused i none = err lease_error
refused i (some j) = if is_succeeded j.state then err (conflict "result") else err lease_error

unfoldable pub with_result : CompleteInput → Db → Db
with_result i db = record db {
  jobs = update (authorized i.authority) (succeed i.authority.now) db.jobs;
  results = db.results ++ new_result i ∷ [];
}

unfoldable pub complete : Codec → CompleteInput → Db → Outcome Status
unfolding valid_complete stored_result with_result
complete k i db =
    if not (valid_complete i)
    then err input_error
    else elim (find? (result_of i.authority.job_id) db.results) [
      | some r ↦ stored_result k i r db
      | none ↦
          if exists (λ r. str_eq r.result_id i.result_id) db.results
          then err (conflict "result")
          else (if exists (authorized i.authority) db.jobs
              then ok (with_result i db) fresh
              else refused i (find? (job_is i.authority.job_id) db.jobs))
    ]

pub read_result : Codec → String → Db → Outcome (Option ResultRow)
read_result k id db = elim (find? (result_of id) db.results) [
  | none ↦ ok db none
  | some r ↦ if k.result_decodes r then ok db (some r) else err (data_error "result")
]
