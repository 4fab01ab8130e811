-- ===== src/Store/Supersede.antt =====
-- src/store/shared.ts: the work of a pull request that is superseded.
use workflowd.Base.{
  ℕ, String, Bool, true, false, not, ◌&&◌, ◌||◌, Option, none, some, List, ◌==◌, ltb, find?, exists,
  update,
}
use workflowd.Store.Lease.{Row, WorkState, superseded, succeeded, id_is}
use workflowd.Store.Publications.{Publication}
use workflowd.Store.Work.{
  Job, ExecutionState, launch_intent, execution_superseded, Execution, WorkDb, is_active, is_review,
  job_of, publication_of,
}

pub record SupersedeInput : Type 0 where
  pub repository_id : ℕ
  pub pull_request_number : ℕ
  pub generation : ℕ
  pub include_current_generation : Bool
  pub publication_reason : String
  pub timestamp : ℕ

abbrev pub is_intent : ExecutionState → Bool
is_intent launch_intent = true
is_intent _ = false

-- `UPDATE agent_executions … WHERE job_id IN (SELECT id FROM jobs WHERE …)`.
abbrev pub supersede_executions : (Row Job → Bool) → ℕ → WorkDb → List Execution
supersede_executions p at db =
    update (λ e. is_intent e.state && exists (λ job. id_is e.job_id job && p job) db.jobs)
      (λ e. record e { state = execution_superseded; updated_at = at }) db.executions

abbrev pub supersede_job : ℕ → Row Job → Row Job
supersede_job at row = record row {
  state = superseded;
  lease_owner = none;
  lease_until = none;
  last_error = none;
  updated_at = at;
  entry = record row.entry { cancel_requested = true };
}

abbrev pub supersede_publication : String → ℕ → Row Publication → Row Publication
supersede_publication reason at row = record row {
  state = superseded;
  lease_owner = none;
  lease_until = none;
  last_error = some reason;
  updated_at = at;
}

-- The generations that `supersedePullRequestWork` supersedes.
abbrev pub outdated : SupersedeInput → ℕ → Bool
outdated i generation =
    ltb generation i.generation || (i.include_current_generation && generation == i.generation)

abbrev pub outdated_job : SupersedeInput → Row Job → Bool
outdated_job i row =
    job_of i.repository_id i.pull_request_number row && outdated i row.entry.generation

abbrev pub outdated_publication : SupersedeInput → Row Publication → Bool
outdated_publication i row =
    publication_of i.repository_id i.pull_request_number row && outdated i row.entry.generation

-- `supersedePullRequestWork`.
unfoldable pub supersede_pull_request_work : SupersedeInput → WorkDb → WorkDb
supersede_pull_request_work i db = record db {
  executions = supersede_executions (outdated_job i) i.timestamp db;
  jobs = update (λ r. outdated_job i r && is_active r.state) (supersede_job i.timestamp) db.jobs;
  publications =
      update (λ r. outdated_publication i r && is_active r.state)
        (supersede_publication i.publication_reason i.timestamp) db.publications;
}

pub record OlderReviewInput : Type 0 where
  pub repository_id : ℕ
  pub pull_request_number : ℕ
  pub review_job_id : ℕ
  pub timestamp : ℕ

-- The comparison with the columns of the review job, which are `NULL` where there is none.
abbrev pub earlier_than : Option (Row Job) → ℕ → ℕ → Bool
earlier_than none generation number = false
earlier_than (some job) generation number =
    generation == job.entry.generation && ltb number job.entry.review_request_number

abbrev pub older_fix : OlderReviewInput → Option (Row Job) → Row Job → Bool
older_fix i job row =
    not (is_review row.entry.kind)
    && job_of i.repository_id i.pull_request_number row
    && earlier_than job row.entry.generation row.entry.review_request_number

abbrev pub older_publication : OlderReviewInput → Option (Row Job) → Row Publication → Bool
older_publication i job row =
    publication_of i.repository_id i.pull_request_number row
    && earlier_than job row.entry.generation row.entry.review_request_number

abbrev pub is_published : WorkState → Bool
is_published succeeded = true
is_published _ = false

-- `supersedeOlderReviewWork`.
unfoldable pub supersede_older_review_work : OlderReviewInput → WorkDb → WorkDb
supersede_older_review_work i db =
    let job = find? (id_is i.review_job_id) db.jobs in
    record db {
      executions = supersede_executions (older_fix i job) i.timestamp db;
      publications =
          update (λ r. older_publication i job r && (is_active r.state || is_published r.state))
            (supersede_publication "newer review requested" i.timestamp) db.publications;
      jobs =
          update (λ r. older_fix i job r && is_active r.state) (supersede_job i.timestamp) db.jobs;
    }
