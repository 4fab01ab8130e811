-- ===== src/Store/PullRequests/Write.antt =====
-- src/store/pull-requests.ts: what an applied decision writes to the pull requests and to the jobs.
use workflowd.Base.{
  ℕ, suc, String, Bool, true, false, ◌&&◌, Option, none, some, List, [], ◌∷◌, ◌++◌, if◌then◌else◌,
  ◌==◌, exists, update, Text,
}
use workflowd.Domain.Transition.{
  PullRequestData, data_of, current_generation, earlier_review_requests, Intent,
  skip_automatic_review, queue_review, supersede_generation, supersede_review_requests,
}
use workflowd.Store.Lease.{Row, ready}
use workflowd.Store.Work.{PullRow, review, Job, WorkDb, pull_is}
use workflowd.Store.Supersede.{
  SupersedeInput, supersede_pull_request_work, supersede_older_review_work,
}
use workflowd.Store.PullRequests.Tracked.{
  TransitionInput, Status, ignored, skipped, enqueued, review_of,
}

-- The loop over the intents.
abbrev pub supersede_input : TransitionInput → ℕ → Bool → String → SupersedeInput
supersede_input i generation include reason =
    let d = data_of i.snapshot in
    record {
      repository_id = d.repository.id;
      pull_request_number = d.pull_request.number;
      generation = generation;
      include_current_generation = include;
      publication_reason = reason;
      timestamp = i.applied_at;
    }

abbrev pub carry_out_intent : TransitionInput → Intent → WorkDb → WorkDb
carry_out_intent i (supersede_generation g) db =
    supersede_pull_request_work (supersede_input i g false "pull request generation changed") db
carry_out_intent i (supersede_review_requests g current_generation) db =
    supersede_pull_request_work (supersede_input i g true "pull request is not eligible") db
carry_out_intent i _ db = db

abbrev pub carry_out_intents : TransitionInput → List Intent → WorkDb → WorkDb
carry_out_intents i [] db = db
carry_out_intents i (intent ∷ intents) db =
    carry_out_intents i intents (carry_out_intent i intent db)

-- The upsert of the pull request; `COALESCE` keeps the time that an observation lacks.
abbrev pub coalesce : Option Text → Option Text → Option Text
coalesce none previous = previous
coalesce (some at) previous = some at

abbrev pub keep_time : PullRequestData → PullRequestData → PullRequestData
keep_time d previous = record d {
  pull_request = record d.pull_request {
    updated_at = coalesce d.pull_request.updated_at previous.pull_request.updated_at;
  };
}

abbrev pub skip_reason : Bool → Option String
skip_reason true = some "automatic-review-untrusted-fork"
skip_reason false = none

abbrev pub new_pull : PullRequestData → Bool → ℕ → ℕ → PullRow
new_pull d skip generation at = record {
  tracked = d;
  automatic_review_skip_reason = skip_reason skip;
  generation = generation;
  updated_at = at;
}

abbrev pub merged_pull : PullRequestData → Bool → ℕ → ℕ → PullRow → PullRow
merged_pull d skip generation at row = new_pull (keep_time d row.tracked) skip generation at

unfoldable pub put_pull : PullRequestData → Bool → ℕ → ℕ → List PullRow → List PullRow
put_pull d skip generation at rows =
    if exists (pull_is d.repository.id d.pull_request.number) rows
    then update (pull_is d.repository.id d.pull_request.number) (merged_pull d skip generation at)
        rows
    else rows ++ (new_pull d skip generation at ∷ [])

abbrev pub is_skip : Intent → Bool
is_skip skip_automatic_review = true
is_skip _ = false

abbrev pub queued : List Intent → Option ℕ
queued [] = none
queued (queue_review n ∷ intents) = some n
queued (_ ∷ intents) = queued intents

abbrev pub supersedes_earlier : Intent → Bool
supersedes_earlier (supersede_review_requests g earlier_review_requests) = true
supersedes_earlier _ = false

abbrev pub review_job : PullRequestData → ℕ → ℕ → ℕ → ℕ → Row Job
review_job d generation number at id = record {
  id = id;
  state = ready;
  attempts = 0;
  max_attempts = 3;
  run_at = at;
  lease_owner = none;
  lease_until = none;
  last_error = none;
  updated_at = at;
  entry = record {
    kind = review;
    installation_id = d.installation_id;
    repository_id = d.repository.id;
    repository_full_name = d.repository.full_name;
    pull_request_number = d.pull_request.number;
    author = d.pull_request.author;
    base_ref = d.pull_request.base_ref;
    base_sha = d.pull_request.base_sha;
    expected_head_sha = d.pull_request.head_sha;
    head_ref = d.pull_request.head_ref;
    head_repository_full_name = d.pull_request.head_repository_full_name;
    generation = generation;
    review_request_number = number;
    cancel_requested = false;
    created_at = at;
  };
}

-- The unique index `jobs_identity`, for a review.
abbrev pub same_request : PullRequestData → ℕ → ℕ → Row Job → Bool
same_request d generation number row =
    review_of d.repository.id d.pull_request.number generation row
    && row.entry.review_request_number == number

abbrev pub supersede_earlier : TransitionInput → List Intent → ℕ → WorkDb → WorkDb
supersede_earlier i intents id db =
    let d = data_of i.snapshot in
    if exists supersedes_earlier intents
    then supersede_older_review_work
        (record {
          repository_id = d.repository.id;
          pull_request_number = d.pull_request.number;
          review_job_id = id;
          timestamp = i.applied_at;
        })
        db
    else db

-- `INSERT INTO jobs … ON CONFLICT DO NOTHING RETURNING id`, and what depends on it.
unfoldable pub queue : TransitionInput → ℕ → ℕ → List Intent → WorkDb → WorkDb × Status
queue i generation number intents db =
    let d = data_of i.snapshot in
    if exists (same_request d generation number) db.jobs then (db, ignored generation) else (
      supersede_earlier i intents db.next_job (record db {
        jobs = db.jobs ++ (review_job d generation number i.applied_at db.next_job ∷ []);
        next_job = suc db.next_job;
      }),
      enqueued generation,
    )

abbrev pub queue_or : TransitionInput → ℕ → Option ℕ → List Intent → WorkDb → WorkDb × Status
queue_or i generation none intents db = (db, ignored generation)
queue_or i generation (some number) intents db = queue i generation number intents db

unfoldable pub apply_decision : TransitionInput → ℕ → List Intent → WorkDb → WorkDb × Status
unfolding queue put_pull
apply_decision i generation intents db =
    let carried = carry_out_intents i intents db in
    let skip = exists is_skip intents in
    let stored = record carried {
      pull_requests =
          put_pull (data_of i.snapshot) skip generation i.applied_at carried.pull_requests;
    } in
    if skip
    then (stored, skipped generation)
    else queue_or i generation (queued intents) intents stored
