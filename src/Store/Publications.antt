-- ===== src/Store/Publications.antt =====
-- src/store/publications.ts with src/store/currentness.ts, and the queues that src/store/commands.ts
-- and src/store/reconciliations.ts configure: who may claim a row, and how a publication ends. The
-- pull requests and the jobs are the columns that the queries read.
pub mod Current
mod Tests
use workflowd.Base.{
  ℕ, String, Bool, true, false, not, ◌&&◌, Option, none, some, List, [], ◌∷◌, max, if◌then◌else◌,
  ◌==◌, str_eq, exists, update,
}
use workflowd.Store.Lease.{Row, WorkState, LeaseClaim, Decoded, holds, claim}

pub record PullRequestRow : Type 0 where
  pub repository_id : ℕ
  pub pull_request_number : ℕ
  pub generation : ℕ
  pub base_ref : String
  pub base_sha : String
  pub head_sha : String
  pub head_ref : String
  pub head_repository_full_name : String
  pub is_open : Bool
  pub draft : Bool

pub record ReviewJobRow : Type 0 where
  pub is_review : Bool
  pub repository_id : ℕ
  pub pull_request_number : ℕ
  pub generation : ℕ
  pub review_request_number : ℕ

pub record Publication : Type 0 where
  pub repository_id : ℕ
  pub pull_request_number : ℕ
  pub generation : ℕ
  pub base_ref : String
  pub base_sha : String
  pub expected_head_sha : String
  pub head_ref : String
  pub head_repository_full_name : String
  pub review_request_number : ℕ

abbrev pub same_pull_request : Publication → PullRequestRow → Bool
same_pull_request p pr =
    pr.repository_id == p.repository_id && pr.pull_request_number == p.pull_request_number

abbrev pub reviewable : PullRequestRow → Bool
reviewable pr = pr.is_open && not pr.draft

abbrev pub current_publication : List PullRequestRow → Publication → Bool
current_publication prs p =
    exists
      (λ pr.
        same_pull_request p pr
        && p.generation == pr.generation
        && str_eq p.base_ref pr.base_ref
        && str_eq p.base_sha pr.base_sha
        && str_eq p.expected_head_sha pr.head_sha
        && str_eq p.head_ref pr.head_ref
        && str_eq p.head_repository_full_name pr.head_repository_full_name
        && reviewable pr)
      prs

abbrev pub of_publication : Publication → ReviewJobRow → Bool
of_publication p job =
    job.is_review
    && job.repository_id == p.repository_id
    && job.pull_request_number == p.pull_request_number
    && job.generation == p.generation

-- `MAX` of the request numbers, which is `NULL` without a row.
abbrev max_or : Option ℕ → ℕ → ℕ
max_or none n = n
max_or (some m) n = max m n

abbrev pub max_request : Publication → List ReviewJobRow → Option ℕ
max_request p [] = none
max_request p (job ∷ jobs) =
    let rest = max_request p jobs in
    if of_publication p job then some (max_or rest job.review_request_number) else rest

abbrev equals : ℕ → Option ℕ → Bool
equals n none = false
equals n (some m) = n == m

abbrev pub latest_review_request : List ReviewJobRow → Publication → Bool
latest_review_request jobs p = equals p.review_request_number (max_request p jobs)

-- `claimNextPublication`; `claimNextReconciliation` and `claimNextCommand` ask for nothing more.
pub claim_next_publication :
    {V : Type 0}
    → List PullRequestRow
    → List ReviewJobRow
    → (Row Publication → Decoded V)
    → LeaseClaim
    → List (Row Publication)
    → Option (List (Row Publication) × Option V)
claim_next_publication prs jobs decode =
    claim (λ now r. current_publication prs r.entry && latest_review_request jobs r.entry)
      (λ now rows. rows) decode

pub claim_next :
    {E V : Type 0}
    → (Row E → Decoded V)
    → LeaseClaim
    → List (Row E)
    → Option (List (Row E) × Option V)
claim_next decode = claim (λ now r. true) (λ now rows. rows) decode

pub record CompletePublicationInput : Type 0 where
  pub publication_id : ℕ
  pub worker_id : String
  pub completed_at : ℕ
  pub published : Bool

pub data Completion : Type 0 where
  completed stale : Completion

abbrev pub held : CompletePublicationInput → Row Publication → Bool
held i r = holds i.publication_id i.worker_id i.completed_at r

abbrev pub is_current : List PullRequestRow → List ReviewJobRow → Row Publication → Bool
is_current prs jobs r = current_publication prs r.entry && latest_review_request jobs r.entry

abbrev pub succeed : ℕ → Row Publication → Row Publication
succeed now r = record r {
  state = WorkState.succeeded;
  lease_owner = none;
  lease_until = none;
  last_error = none;
  updated_at = now;
}

abbrev pub supersede : ℕ → Row Publication → Row Publication
supersede now r = record r {
  state = WorkState.superseded;
  lease_owner = none;
  lease_until = none;
  last_error = some "publication superseded";
  updated_at = now;
}

-- `isPublicationCurrent`.
pub is_publication_current :
    List PullRequestRow → List ReviewJobRow → ℕ → String → ℕ → List (Row Publication) → Bool
is_publication_current prs jobs id worker now rows =
    exists (λ r. holds id worker now r && is_current prs jobs r) rows

unfoldable pub complete_publication :
    List PullRequestRow
    → List ReviewJobRow
    → CompletePublicationInput
    → List (Row Publication)
    → List (Row Publication) × Completion
complete_publication prs jobs i rows =
    if i.published && exists (λ r. held i r && is_current prs jobs r) rows
    then (update (λ r. held i r && is_current prs jobs r) (succeed i.completed_at) rows, completed)
    else (update (held i) (supersede i.completed_at) rows, stale)
