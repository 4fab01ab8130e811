-- ===== src/Store/PullRequests/Machine.antt =====
-- The state machine of src/domain/pull-request-transition.ts over the tracked state, which
-- src/store/pull-requests.ts has to implement.
use workflowd.Base.{ℕ, Bool, true, false, ◌||◌, Option, none, some, List, if◌then◌else◌, exists}
use workflowd.Domain.Transition.{
  PullRequestData, Snapshot, data_of, TrackedPullRequestState, Intent, Decision, ignore_observation,
  request_reconciliation, apply_snapshot,
}
use workflowd.Store.Work.{WorkDb}
use workflowd.Store.PullRequests.Tracked.{
  TransitionInput, Status, ignored, reconciliation_enqueued, skipped, enqueued, tracked_state,
}
use workflowd.Store.PullRequests.Write.{keep_time, queued, is_skip}
use workflowd.Store.PullRequests.Intents.{withdraws, known_latest}
use workflowd.Store.PullRequests.Known.{known_active}

-- The state machine: what a decision makes of the tracked state, and the answer.
abbrev pub keep_known : Option TrackedPullRequestState → PullRequestData → PullRequestData
keep_known none d = d
keep_known (some c) d = keep_time d c.tracked

abbrev pub newest : Option ℕ → Option ℕ → Option ℕ
newest none latest = latest
newest (some n) latest = some n

abbrev pub is_queued : Option ℕ → Bool
is_queued none = false
is_queued (some n) = true

abbrev pub next_tracked :
    Option TrackedPullRequestState → Snapshot → ℕ → List Intent → TrackedPullRequestState
next_tracked c s g is = record {
  tracked = keep_known c (data_of s);
  generation = g;
  latest_review_request_number = newest (queued is) (known_latest c g);
  review_request_active =
      is_queued (queued is) || (if exists withdraws is then false else known_active c g);
}

abbrev pub answered : ℕ → Option ℕ → Status
answered g none = ignored g
answered g (some n) = enqueued g

abbrev pub follow :
    Option TrackedPullRequestState → Snapshot → Decision → Option TrackedPullRequestState × Status
follow c s (ignore_observation g) = (c, ignored g)
follow c s (request_reconciliation g) = (c, reconciliation_enqueued g)
follow c s (apply_snapshot s' g is) =
    (some (next_tracked c s g is), if exists is_skip is then skipped g else answered g (queued is))

abbrev pub own_id : TransitionInput → ℕ
own_id i = (data_of i.snapshot).repository.id

abbrev pub own_number : TransitionInput → ℕ
own_number i = (data_of i.snapshot).pull_request.number

abbrev pub own_state : TransitionInput → WorkDb → Option TrackedPullRequestState
own_state i db = tracked_state (own_id i) (own_number i) db
