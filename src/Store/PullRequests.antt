-- ===== src/Store/PullRequests.antt =====
-- src/store/pull-requests.ts, `makePullRequestTransition`: what the store makes of the decision of
-- src/domain/pull-request-transition.ts. The snapshot is the decoded one, and a row of the tables
-- decodes. `none` is the defect of an observation without its sequence, which rolls back.
pub mod Tracked
pub mod Reconcile
pub mod Write
pub mod Reviews
pub mod Placed
pub mod Intents
pub mod Carry
pub mod Queue
pub mod Known
pub mod Machine
pub mod After
pub mod Apply
pub mod Refine
pub mod Frame
pub mod Watermark
pub mod History
mod Tests
use workflowd.Base.{
  ℕ, suc, String, Bool, true, false, not, ◌&&◌, ◌||◌, Option, none, some, List, [], ◌∷◌, ◌++◌, max,
  if◌then◌else◌, ltb, leb, ◌==◌, str_eq, find?, exists, update, Text,
}
use workflowd.Domain.Transition.{
  PullRequestRef, PullRequestData, Snapshot, observation, authoritative, data_of,
  TrackedPullRequestState, Scope, current_generation, earlier_review_requests, Intent,
  skip_automatic_review, queue_review, supersede_generation, supersede_review_requests, Decision,
  ignore_observation, request_reconciliation, apply_snapshot, decide_pull_request_transition,
}
use workflowd.Store.Lease.{Row, WorkState, ready}
use workflowd.Store.Work.{
  PullRow, JobKind, review, Job, Reconciliation, WorkDb, is_active, is_review, pull_is, job_of,
}
use workflowd.Store.Supersede.{
  SupersedeInput, supersede_pull_request_work, OlderReviewInput, supersede_older_review_work,
}
use workflowd.Store.PullRequests.Tracked.{
  TransitionInput, Status, ignored, reconciliation_enqueued, skipped, enqueued, review_of, max_or,
  latest_request, review_active, tracked_row, tracked_of, tracked_state,
}
use workflowd.Store.PullRequests.Reconcile.{
  after_received, after_watermark, reconciles, reset_reconciliation, new_reconciliation,
  enqueue_reconciliation, restart, mark_observed, observe,
}
use workflowd.Store.PullRequests.Write.{
  supersede_input, carry_out_intent, carry_out_intents, coalesce, keep_time, skip_reason, new_pull,
  merged_pull, put_pull, is_skip, queued, supersedes_earlier, review_job, same_request,
  supersede_earlier, queue, queue_or, apply_decision,
}

-- An observation has to come with its sequence.
unfoldable pub observed : Snapshot → Option ℕ → ℕ → WorkDb → Option WorkDb
unfolding observe
observed (authoritative d) sequence at db = some db
observed (observation action d) none at db = none
observed (observation action d) (some sequence) at db = some (observe d at sequence db)

unfoldable pub carry_out : TransitionInput → Decision → WorkDb → Option (WorkDb × Status)
unfolding observed apply_decision
carry_out i (ignore_observation g) db = some (db, ignored g)
carry_out i (request_reconciliation g) db = elim i.observation_sequence [
  | none ↦ none
  | some sequence ↦ some (
    enqueue_reconciliation (data_of i.snapshot) i.applied_at sequence db,
    reconciliation_enqueued g,
  )
]
carry_out i (apply_snapshot s g intents) db =
    elim (observed i.snapshot i.observation_sequence i.applied_at db) [
      | none ↦ none
      | some db' ↦ some (apply_decision i g intents db')
    ]

-- `makePullRequestTransition`.
unfoldable pub transition : (String → String) → TransitionInput → WorkDb → Option (WorkDb × Status)
unfolding carry_out tracked_state
transition lower i db =
    let d = data_of i.snapshot in
    carry_out i
      (decide_pull_request_transition lower (tracked_state d.repository.id d.pull_request.number db)
        i.snapshot)
      db
