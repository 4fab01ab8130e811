-- ===== src/Store/PullRequests/Queue.antt =====
-- The review that src/store/pull-requests.ts queues, and the fixes of earlier requests that it ends.
use workflowd.Base.{
  ℕ, suc, ◌≡◌, refl, ◌∙◌, inl, inr, Bool, true, ◌&&◌, Option, some, List, [], ◌∷◌, ◌++◌, arith,
  find?, exists, exists-append, Bool-cases,
}
use workflowd.Domain.Transition.{data_of, Intent}
use workflowd.Store.Lease.{Row, id_is}
use workflowd.Store.Work.{Job, WorkDb, is_active, job_of, publication_of}
use workflowd.Store.Supersede.{
  OlderReviewInput, older_fix, supersede_job, supersede_publication, supersede_older_review_work,
}
use workflowd.Store.PullRequests.Tracked.{
  TransitionInput, enqueued, review_of, latest_request, review_active,
}
use workflowd.Store.PullRequests.Write.{review_job, supersedes_earlier, supersede_earlier, queue}
use workflowd.Store.PullRequests.Reviews.{
  exceeds, latest-update, active-update_spares, latest-fresh, latest-append_fresh,
}
use workflowd.Store.PullRequests.Placed.{
  PlacedAt, job_generation, publication_generation, strays-retire, strays-append,
}

-- What a statement that concerns no review, and starts no work, leaves.
abbrev pub Spares : WorkDb → WorkDb → Type 0
Spares db db' =
    (db'.pull_requests ≡ db.pull_requests)
    × ((r n g : ℕ)
        → latest_request (review_of r n g) db'.jobs ≡ latest_request (review_of r n g) db.jobs)
    × ((r n g : ℕ)
        → review_active (review_of r n g) db'.jobs ≡ review_active (review_of r n g) db.jobs)
    × ((r n : ℕ) (current : Option ℕ) → PlacedAt r n current db → PlacedAt r n current db')

older-Spares : (o : OlderReviewInput) (db : WorkDb) → Spares db (supersede_older_review_work o db)
unfolding supersede_older_review_work
older-Spares o db =
    let job = find? (id_is o.review_job_id) db.jobs in
    let hit : Row Job → Bool = λ j. older_fix o job j && is_active j.state in
    (
      refl,
      (λ r n g.
          latest-update (review_of r n g) hit (supersede_job o.timestamp) (λ j. refl) (λ j. refl)
            db.jobs),
      (λ r n g.
          active-update_spares (review_of r n g) hit (supersede_job o.timestamp) (λ j. refl)
            (λ j h. ground arith) db.jobs),
      (λ r n current p. (
        strays-retire (job_of r n) job_generation current hit (supersede_job o.timestamp)
            (λ j. refl) (λ j. refl) (λ j. refl) db.jobs p.0,
        strays-retire (publication_of r n) publication_generation current _
            (supersede_publication "newer review requested" o.timestamp) (λ j. refl) (λ j. refl)
            (λ j. refl) db.publications p.1,
      )),
    )

pub earlier-Spares :
    (i : TransitionInput) (is : List Intent) (id : ℕ) (db : WorkDb)
    → Spares db (supersede_earlier i is id db)
earlier-Spares i is id db = elim (Bool-cases (exists supersedes_earlier is)) [
  | inl e ↦ rw e (
      older-Spares
        (record {
          repository_id = (data_of i.snapshot).repository.id;
          pull_request_number = (data_of i.snapshot).pull_request.number;
          review_job_id = id;
          timestamp = i.applied_at;
        })
        db)
  | inr e ↦ rw e (refl, (λ r n g. refl), (λ r n g. refl), (λ r n current p. p))
]

module _ (i : TransitionInput) (g n : ℕ) (is : List Intent) (db : WorkDb) where
  abbrev pub inserted : WorkDb
  inserted = record db {
    jobs = db.jobs ++ (review_job (data_of i.snapshot) g n i.applied_at db.next_job ∷ []);
    next_job = suc db.next_job;
  }

  -- A request number above every earlier one does not meet the unique index.
  pub queue-inserts :
      exceeds n (
          latest_request
            (review_of
              (data_of i.snapshot).repository.id
              (data_of i.snapshot).pull_request.number
              g)
            db.jobs)
        ≡ true
      → queue i g n is db ≡ (supersede_earlier i is db.next_job inserted, enqueued g)
  unfolding queue
  queue-inserts e =
      let d = data_of i.snapshot in
      let free = latest-fresh (review_of d.repository.id d.pull_request.number g) n db.jobs e in
      rw free refl

  pub queued-latest :
      exceeds n (
          latest_request
            (review_of
              (data_of i.snapshot).repository.id
              (data_of i.snapshot).pull_request.number
              g)
            db.jobs)
        ≡ true
      → latest_request
          (review_of (data_of i.snapshot).repository.id (data_of i.snapshot).pull_request.number g)
          (supersede_earlier i is db.next_job inserted).jobs
        ≡ some n
  queued-latest e =
      let d = data_of i.snapshot in
      (earlier-Spares i is db.next_job inserted).1 d.repository.id d.pull_request.number g
      ∙ latest-append_fresh (review_of d.repository.id d.pull_request.number g) db.jobs
          (review_job d g n i.applied_at db.next_job) (ground arith) e

  pub queued-active :
      review_active
        (review_of (data_of i.snapshot).repository.id (data_of i.snapshot).pull_request.number g)
        (supersede_earlier i is db.next_job inserted).jobs
      ≡ true
  queued-active =
      let d = data_of i.snapshot in
      let p = review_of d.repository.id d.pull_request.number g in
      (earlier-Spares i is db.next_job inserted).2 d.repository.id d.pull_request.number g
      ∙ (exists-append (λ j. p j && is_active j.state) db.jobs
            (review_job d g n i.applied_at db.next_job ∷ [])
          ∙ ground arith)

  pub queued-pulls : (supersede_earlier i is db.next_job inserted).pull_requests ≡ db.pull_requests
  queued-pulls = (earlier-Spares i is db.next_job inserted).0

  pub queued-Placed :
      PlacedAt
        (data_of i.snapshot).repository.id
        (data_of i.snapshot).pull_request.number
        (some g)
        db
      → PlacedAt
          (data_of i.snapshot).repository.id
          (data_of i.snapshot).pull_request.number
          (some g)
          (supersede_earlier i is db.next_job inserted)
  queued-Placed p =
      let d = data_of i.snapshot in
      (earlier-Spares i is db.next_job inserted).3 d.repository.id d.pull_request.number (some g) (
        strays-append (job_of d.repository.id d.pull_request.number) job_generation (some g) db.jobs
            (review_job d g n i.applied_at db.next_job) p.0 (ground arith),
        p.1,
      )
