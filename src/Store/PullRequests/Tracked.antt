-- ===== src/Store/PullRequests/Tracked.antt =====
-- src/store/pull-requests.ts: the input of a transition, and the `SELECT` of the tracked state.
use workflowd.Base.{
  ℕ, Bool, ◌&&◌, Option, none, some, List, [], ◌∷◌, max, if◌then◌else◌, ◌==◌, find?, exists,
}
use workflowd.Domain.Transition.{Snapshot, TrackedPullRequestState}
use workflowd.Store.Lease.{Row}
use workflowd.Store.Work.{PullRow, Job, WorkDb, is_active, is_review, pull_is, job_of}

pub record TransitionInput : Type 0 where
  pub applied_at : ℕ
  pub observation_sequence : Option ℕ
  pub snapshot : Snapshot

pub data Status : Type 0 where
  ignored reconciliation_enqueued skipped enqueued : ℕ → Status

abbrev pub review_of : ℕ → ℕ → ℕ → Row Job → Bool
review_of repository number generation row =
    is_review row.entry.kind && job_of repository number row && row.entry.generation == generation

abbrev pub max_or : Option ℕ → ℕ → ℕ
max_or none n = n
max_or (some m) n = max m n

-- `MAX(review_request_number)`.
abbrev pub latest_request : (Row Job → Bool) → List (Row Job) → Option ℕ
latest_request p [] = none
latest_request p (job ∷ jobs) =
    let rest = latest_request p jobs in
    if p job then some (max_or rest job.entry.review_request_number) else rest

abbrev pub review_active : (Row Job → Bool) → List (Row Job) → Bool
review_active p jobs = exists (λ job. p job && is_active job.state) jobs

abbrev pub tracked_row : PullRow → List (Row Job) → TrackedPullRequestState
tracked_row row jobs =
    let p = review_of row.tracked.repository.id row.tracked.pull_request.number row.generation in
    record {
      tracked = row.tracked;
      generation = row.generation;
      latest_review_request_number = latest_request p jobs;
      review_request_active = review_active p jobs;
    }

-- The `SELECT` of the tracked state.
abbrev pub tracked_of : Option PullRow → List (Row Job) → Option TrackedPullRequestState
tracked_of none jobs = none
tracked_of (some row) jobs = some (tracked_row row jobs)

unfoldable pub tracked_state : ℕ → ℕ → WorkDb → Option TrackedPullRequestState
tracked_state repository number db =
    tracked_of (find? (pull_is repository number) db.pull_requests) db.jobs
