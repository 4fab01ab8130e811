-- ===== src/Store/PullRequests/Known.antt =====
-- The tracked state that src/store/pull-requests.ts reads before a transition, and the upsert of the
-- pull request after it.
use workflowd.Base.{
  ℕ, ◌≡◌, ◌≤◌, ap, sym, ◌∙◌, inl, inr, Bool, true, false, ◌&&◌, ◌||◌, Option, none, some, List, [],
  ◌∷◌, ◌++◌, arith, if◌then◌else◌, ltb, ◌==◌, find?, exists, update, find?-true, Bool-cases,
  Option-cases,
}
use workflowd.Domain.Transition.{PullRequestData, TrackedPullRequestState}
use workflowd.Store.Lease.{Row}
use workflowd.Store.Work.{PullRow, Job, is_active, pull_is, job_of}
use workflowd.Store.PullRequests.Tracked.{review_of, latest_request, review_active, tracked_of}
use workflowd.Store.PullRequests.Write.{new_pull, merged_pull, put_pull}
use workflowd.Store.PullRequests.Intents.{known_latest}
use workflowd.Store.PullRequests.Reviews.{no_reviews}
use workflowd.Store.PullRequests.Placed.{generation_at, job_generation, strays}

abbrev pub known_active : Option TrackedPullRequestState → ℕ → Bool
known_active none g = false
known_active (some c) g = if c.generation == g then c.review_request_active else false

abbrev pub Reaches : Option PullRow → ℕ → Type 0
Reaches none g = Unit {0}
Reaches (some row) g = row.generation ≤ g

abbrev pub Fits : ℕ → ℕ → Option PullRow → Type 0
Fits r n none = Unit {0}
Fits r n (some row) = pull_is r n row ≡ true

pub find-Fits : (r n : ℕ) (rows : List PullRow) → Fits r n (find? (pull_is r n) rows)
find-Fits r n rows = elim (Option-cases (find? (pull_is r n) rows)) [
  | inl e ↦ rw e tt
  | inr (row, e) ↦ rw e (find?-true (pull_is r n) rows row e)
]

pub row_reviews :
    (r n : ℕ) (row : PullRow)
    → pull_is r n row ≡ true
    → review_of row.tracked.repository.id row.tracked.pull_request.number row.generation
      ≡ review_of r n row.generation
row_reviews r n row fits =
    let id : row.tracked.repository.id ≡ r = ground arith in
    let number : row.tracked.pull_request.number ≡ n = ground arith in
    λ i. review_of (id i) (number i) row.generation

-- The reviews of the generation that is reached are what the tracked state tells of them.
pub known :
    (r n g : ℕ) (found : Option PullRow) (jobs : List (Row Job))
    → Fits r n found
    → Reaches found g
    → strays (job_of r n) job_generation (generation_at found) jobs ≡ false
    → (latest_request (review_of r n g) jobs ≡ known_latest (tracked_of found jobs) g)
      × (review_active (review_of r n g) jobs ≡ known_active (tracked_of found jobs) g)
known r n g none jobs fits reaches s =
    no_reviews (review_of r n g) (λ j. job_of r n j && true) (λ j h. ground arith) jobs s
known r n g (some row) jobs fits reaches s = elim (Bool-cases (row.generation == g)) [
  | inl e ↦
      let same : row.generation ≡ g = ground arith in
      let reviews = row_reviews r n row fits ∙ ap (review_of r n) same in
      rw e (
        ap (λ p. latest_request p jobs) (sym reviews),
        ap (λ p. review_active p jobs) (sym reviews),
      )
  | inr e ↦ rw e (
      no_reviews (review_of r n g)
        (λ j.
          job_of r n j
          && (ltb row.generation j.entry.generation
              || (is_active j.state && ltb j.entry.generation row.generation)))
        (λ j h. ground arith) jobs s)
]

abbrev pub pull_after : PullRequestData → Bool → ℕ → ℕ → Option PullRow → PullRow
pull_after d skip g at none = new_pull d skip g at
pull_after d skip g at (some row) = merged_pull d skip g at row

find-merged :
    (d : PullRequestData) (skip : Bool) (g at : ℕ) (rows : List PullRow)
    → exists (pull_is d.repository.id d.pull_request.number) rows ≡ true
    → find?
        (pull_is d.repository.id d.pull_request.number)
        (update (pull_is d.repository.id d.pull_request.number) (merged_pull d skip g at) rows)
      ≡ some (pull_after d skip g at (find? (pull_is d.repository.id d.pull_request.number) rows))
find-merged d skip g at [] e = cc
find-merged d skip g at (row ∷ rows) e =
    elim (Bool-cases (pull_is d.repository.id d.pull_request.number row)) [
      | inl own ↦ rw own (ground arith)
      | inr other ↦ rw (other, other) (find-merged d skip g at rows (ground arith))
    ]

find-new :
    (d : PullRequestData) (skip : Bool) (g at : ℕ) (rows : List PullRow)
    → exists (pull_is d.repository.id d.pull_request.number) rows ≡ false
    → find? (pull_is d.repository.id d.pull_request.number) (rows ++ (new_pull d skip g at ∷ []))
      ≡ some (pull_after d skip g at (find? (pull_is d.repository.id d.pull_request.number) rows))
find-new d skip g at [] e = ground arith
find-new d skip g at (row ∷ rows) e =
    elim (Bool-cases (pull_is d.repository.id d.pull_request.number row)) [
      | inl own ↦ absurd (ground arith)
      | inr other ↦ rw other (find-new d skip g at rows (ground arith))
    ]

pub find-put_pull :
    (d : PullRequestData) (skip : Bool) (g at : ℕ) (rows : List PullRow)
    → find? (pull_is d.repository.id d.pull_request.number) (put_pull d skip g at rows)
      ≡ some (pull_after d skip g at (find? (pull_is d.repository.id d.pull_request.number) rows))
unfolding put_pull
find-put_pull d skip g at rows =
    elim (Bool-cases (exists (pull_is d.repository.id d.pull_request.number) rows)) [
      | inl e ↦ rw e (find-merged d skip g at rows e)
      | inr e ↦ rw e (find-new d skip g at rows e)
    ]
