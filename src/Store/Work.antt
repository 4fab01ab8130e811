-- ===== src/Store/Work.antt =====
-- The tables that src/store/pull-requests.ts and src/store/shared.ts write, as src/store/migrations.ts
-- declares them: pull requests, jobs, publications, reconciliations and agent executions. A time is
-- a number; the columns of jobs that neither file writes or reads are left out.
use workflowd.Base.{ℕ, String, Bool, true, false, ◌&&◌, Option, List, ◌==◌}
use workflowd.Domain.Transition.{PullRequestData}
use workflowd.Store.Lease.{Row, WorkState, ready, leased, retry_scheduled}
use workflowd.Store.Publications.{Publication}

-- A row of `pull_requests`; the columns of the snapshot are the record of the domain.
pub record PullRow : Type 0 where
  pub tracked : PullRequestData
  pub automatic_review_skip_reason : Option String
  pub generation : ℕ
  pub updated_at : ℕ

pub data JobKind : Type 0 where
  review fix : JobKind

pub record Job : Type 0 where
  pub kind : JobKind
  pub installation_id : ℕ
  pub repository_id : ℕ
  pub repository_full_name : String
  pub pull_request_number : ℕ
  pub author : String
  pub base_ref : String
  pub base_sha : String
  pub expected_head_sha : String
  pub head_ref : String
  pub head_repository_full_name : String
  pub generation : ℕ
  pub review_request_number : ℕ
  pub cancel_requested : Bool
  pub created_at : ℕ

pub record Reconciliation : Type 0 where
  pub installation_id : ℕ
  pub repository_id : ℕ
  pub repository_full_name : String
  pub pull_request_number : ℕ
  pub observation_received_at : Option ℕ
  pub observation_sequence : Option ℕ
  pub created_at : ℕ

pub data ExecutionState : Type 0 where
  launch_intent session_ready execution_succeeded execution_failed execution_superseded :
      ExecutionState

pub record Execution : Type 0 where
  pub job_id : ℕ
  pub state : ExecutionState
  pub updated_at : ℕ

-- The next ids are those of `AUTOINCREMENT`.
pub record WorkDb : Type 0 where
  pub pull_requests : List PullRow
  pub jobs : List (Row Job)
  pub publications : List (Row Publication)
  pub reconciliations : List (Row Reconciliation)
  pub executions : List Execution
  pub next_job : ℕ
  pub next_reconciliation : ℕ

abbrev pub is_active : WorkState → Bool
is_active ready = true
is_active leased = true
is_active retry_scheduled = true
is_active _ = false

abbrev pub is_review : JobKind → Bool
is_review review = true
is_review fix = false

abbrev pub pull_is : ℕ → ℕ → PullRow → Bool
pull_is repository number row =
    row.tracked.repository.id == repository && row.tracked.pull_request.number == number

abbrev pub job_of : ℕ → ℕ → Row Job → Bool
job_of repository number row =
    row.entry.repository_id == repository && row.entry.pull_request_number == number

abbrev pub publication_of : ℕ → ℕ → Row Publication → Bool
publication_of repository number row =
    row.entry.repository_id == repository && row.entry.pull_request_number == number
