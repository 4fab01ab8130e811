-- ===== src/Store/PullRequests/Frame.antt =====
-- A transition of src/store/pull-requests.ts leaves the other pull requests alone.
use workflowd.Base.{
  ℕ, ◌≡◌, refl, ap, sym, subst, ◌∙◌, inl, inr, String, Bool, true, false, ◌&&◌, Option, none, some,
  List, [], ◌∷◌, ◌++◌, arith, if◌then◌else◌, ◌==◌, find?, exists, update, exists-append, Bool-cases,
  Option-cases,
}
use workflowd.Domain.Transition.{
  PullRequestData, Snapshot, observation, authoritative, data_of, Intent, Decision,
  ignore_observation, request_reconciliation, apply_snapshot,
}
use workflowd.Store.Lease.{Row}
use workflowd.Store.Work.{PullRow, Job, WorkDb, is_active, pull_is, job_of}
use workflowd.Store.PullRequests.Tracked.{
  TransitionInput, Status, review_of, latest_request, review_active, tracked_of, tracked_state,
}
use workflowd.Store.PullRequests.Write.{
  review_job, same_request, merged_pull, new_pull, put_pull, queue, queue_or, queued, is_skip,
  supersede_earlier, carry_out_intents, apply_decision,
}
use workflowd.Store.PullRequests.Reconcile.{observe, enqueue_reconciliation}
use workflowd.Store.PullRequests.{observed, carry_out, transition}
use workflowd.Store.PullRequests.Placed.{
  PlacedAt, Placed, generation_at, job_generation, strays-append,
}
use workflowd.Store.PullRequests.Carry.{carry-pulls, carry-latest, carry-other, carry-retires}
use workflowd.Store.PullRequests.Queue.{inserted, earlier-Spares}
use workflowd.Store.PullRequests.Known.{Fits, find-Fits, row_reviews}
use workflowd.Store.PullRequests.Machine.{own_id, own_number}
use workflowd.Store.PullRequests.Refine.{enqueue_shape}

-- What the transitions of a pull request read is the same.
abbrev Same : ℕ → ℕ → WorkDb → WorkDb → Type 0
Same r n db db' =
    (find? (pull_is r n) db'.pull_requests ≡ find? (pull_is r n) db.pull_requests)
    × ((g : ℕ)
        → latest_request (review_of r n g) db'.jobs ≡ latest_request (review_of r n g) db.jobs)
    × ((g : ℕ) → review_active (review_of r n g) db'.jobs ≡ review_active (review_of r n g) db.jobs)
    × ((current : Option ℕ) → PlacedAt r n current db → PlacedAt r n current db')

some_inj {ℓ} : {A : Type ℓ} (a b : A) → some a ≡ some b → a ≡ b
some_inj a b e = cc

latest-append_other :
    (p : Row Job → Bool) (jobs : List (Row Job)) (j : Row Job)
    → p j ≡ false
    → latest_request p (jobs ++ (j ∷ [])) ≡ latest_request p jobs
latest-append_other p [] j e = ground arith
latest-append_other p (k ∷ jobs) j e = ground (arith, latest-append_other p jobs j e)

row-Same :
    (r n : ℕ) (found : Option PullRow) (before after : List (Row Job))
    → Fits r n found
    → ((g : ℕ) → latest_request (review_of r n g) after ≡ latest_request (review_of r n g) before)
    → ((g : ℕ) → review_active (review_of r n g) after ≡ review_active (review_of r n g) before)
    → tracked_of found after ≡ tracked_of found before
row-Same r n none before after fits latest active = refl
row-Same r n (some row) before after fits latest active =
    let reviews = row_reviews r n row fits in
    let l =
      ap (λ p. latest_request p after) reviews
      ∙ (latest row.generation ∙ ap (λ p. latest_request p before) (sym reviews)) in
    let a =
      ap (λ p. review_active p after) reviews
      ∙ (active row.generation ∙ ap (λ p. review_active p before) (sym reviews)) in
    λ k. some (record {
      tracked = row.tracked;
      generation = row.generation;
      latest_review_request_number = l k;
      review_request_active = a k;
    })

module _ (r n : ℕ) where
  Same-trans : (a b c : WorkDb) → Same r n a b → Same r n b c → Same r n a c
  Same-trans a b c (p, l, v, k) (p', l', v', k') =
      (p' ∙ p, (λ g. l' g ∙ l g), (λ g. v' g ∙ v g), (λ current h. k' current (k current h)))

  Same-state :
      (db db' : WorkDb)
      → Same r n db db'
      → (tracked_state r n db' ≡ tracked_state r n db) × (Placed r n db → Placed r n db')
  unfolding tracked_state
  Same-state db db' (p, l, v, k) = (
    ap (λ o. tracked_of o db'.jobs) p
        ∙ row-Same r n (find? (pull_is r n) db.pull_requests) db.jobs db'.jobs
            (find-Fits r n db.pull_requests) l v,
    (λ h.
        subst (λ o. PlacedAt r n (generation_at o) db') (sym p)
          (k (generation_at (find? (pull_is r n) db.pull_requests)) h)),
  )

module _ (i : TransitionInput) (r n : ℕ) (far : (own_id i == r && own_number i == n) ≡ false) where
  carry-Same : (is : List Intent) (db : WorkDb) → Same r n db (carry_out_intents i is db)
  carry-Same is db = (
    ap (find? (pull_is r n)) (carry-pulls i is db),
    (λ g. carry-latest i r n g is db),
    (λ g. carry-other i r n g far is db),
    (λ current p. carry-retires i r n current is db p),
  )

  find-merged_other :
      (skip : Bool) (g at : ℕ) (rows : List PullRow)
      → find? (pull_is r n) (
          update
            (pull_is (own_id i) (own_number i))
            (merged_pull (data_of i.snapshot) skip g at)
            rows)
        ≡ find? (pull_is r n) rows
  find-merged_other skip g at [] = refl
  find-merged_other skip g at (row ∷ rows) = ground (arith, find-merged_other skip g at rows)

  find-new_other :
      (skip : Bool) (g at : ℕ) (rows : List PullRow)
      → find? (pull_is r n) (rows ++ (new_pull (data_of i.snapshot) skip g at ∷ []))
        ≡ find? (pull_is r n) rows
  find-new_other skip g at [] = ground arith
  find-new_other skip g at (row ∷ rows) = ground (arith, find-new_other skip g at rows)

  put-Same :
      (skip : Bool) (g : ℕ) (db : WorkDb)
      → Same r n db (record db {
        pull_requests = put_pull (data_of i.snapshot) skip g i.applied_at db.pull_requests;
      })
  unfolding put_pull
  put-Same skip g db =
      elim (Bool-cases (exists (pull_is (own_id i) (own_number i)) db.pull_requests)) [
        | inl e ↦ rw e (
          find-merged_other skip g i.applied_at db.pull_requests,
          (λ g. refl),
          (λ g. refl),
          (λ current p. p),
        )
        | inr e ↦ rw e (
          find-new_other skip g i.applied_at db.pull_requests,
          (λ g. refl),
          (λ g. refl),
          (λ current p. p),
        )
      ]

  inserted-Same : (g m : ℕ) (is : List Intent) (db : WorkDb) → Same r n db (inserted i g m is db)
  inserted-Same g m is db =
      let j = review_job (data_of i.snapshot) g m i.applied_at db.next_job in
      (
        refl,
        (λ h. latest-append_other (review_of r n h) db.jobs j (ground arith)),
        (λ h.
            exists-append (λ k. review_of r n h k && is_active k.state) db.jobs (j ∷ [])
            ∙ ground arith),
        (λ current p.
            (strays-append (job_of r n) job_generation current db.jobs j p.0 (ground arith), p.1)),
      )

  spared : (is : List Intent) (id : ℕ) (db : WorkDb) → Same r n db (supersede_earlier i is id db)
  spared is id db =
      let (pulls, latest, active, placed) = earlier-Spares i is id db in
      (ap (find? (pull_is r n)) pulls, latest r n, active r n, placed r n)

  queue-Same : (g m : ℕ) (is : List Intent) (db : WorkDb) → Same r n db (queue i g m is db).0
  unfolding queue
  queue-Same g m is db =
      elim (Bool-cases (exists (same_request (data_of i.snapshot) g m) db.jobs)) [
        | inl e ↦ rw e (refl, (λ h. refl), (λ h. refl), (λ current p. p))
        | inr e ↦ rw e (
            Same-trans r n db (inserted i g m is db)
              (supersede_earlier i is db.next_job (inserted i g m is db)) (inserted-Same g m is db)
              (spared is db.next_job (inserted i g m is db)))
      ]

  stored_other : (skip : Bool) (g : ℕ) (is : List Intent) (db : WorkDb) → WorkDb
  stored_other skip g is db =
      let carried = carry_out_intents i is db in
      record carried {
        pull_requests = put_pull (data_of i.snapshot) skip g i.applied_at carried.pull_requests;
      }

  stored-Same :
      (skip : Bool) (g : ℕ) (is : List Intent) (db : WorkDb)
      → Same r n db (stored_other skip g is db)
  unfolding stored_other
  stored-Same skip g is db =
      Same-trans r n db (carry_out_intents i is db) (stored_other skip g is db) (carry-Same is db)
        (put-Same skip g (carry_out_intents i is db))

  queue_or-Same :
      (g : ℕ) (next : Option ℕ) (is : List Intent) (db : WorkDb)
      → Same r n db (queue_or i g next is db).0
  queue_or-Same g none is db = (refl, (λ h. refl), (λ h. refl), (λ current p. p))
  queue_or-Same g (some m) is db = queue-Same g m is db

  branch-Same :
      (g : ℕ) (is : List Intent) (db stored : WorkDb) (b : Bool)
      → Same r n db stored
      → Same r n db (if b then (stored, Status.skipped g) else queue_or i g (queued is) is stored).0
  branch-Same g is db stored true s = s
  branch-Same g is db stored false s =
      Same-trans r n db stored (queue_or i g (queued is) is stored).0 s
        (queue_or-Same g (queued is) is stored)

  apply-Same : (g : ℕ) (is : List Intent) (db : WorkDb) → Same r n db (apply_decision i g is db).0
  unfolding apply_decision stored_other
  apply-Same g is db =
      branch-Same g is db (stored_other (exists is_skip is) g is db) (exists is_skip is)
        (stored-Same (exists is_skip is) g is db)

  Same-refl : (db : WorkDb) → Same r n db db
  Same-refl db = (refl, (λ g. refl), (λ g. refl), (λ current p. p))

  observe-Same :
      (d : PullRequestData) (m : ℕ) (db : WorkDb) → Same r n db (observe d i.applied_at m db)
  unfolding observe
  observe-Same d m db = (refl, (λ g. refl), (λ g. refl), (λ current p. p))

  enqueue-Same :
      (d : PullRequestData) (m : ℕ) (db : WorkDb)
      → Same r n db (enqueue_reconciliation d i.applied_at m db)
  enqueue-Same d m db =
      let (rs, id, shape) = enqueue_shape d i.applied_at m db in
      subst (Same r n db) (sym shape) (refl, (λ g. refl), (λ g. refl), (λ current p. p))

  observed-Same :
      (s : Snapshot) (sequence : Option ℕ) (db db' : WorkDb)
      → observed s sequence i.applied_at db ≡ some db'
      → Same r n db db'
  unfolding observed
  observed-Same (authoritative d) sequence db db' e =
      subst (Same r n db) (some_inj db db' e) (Same-refl db)
  observed-Same (observation action d) none db db' e = cc
  observed-Same (observation action d) (some m) db db' e =
      subst (Same r n db) (some_inj (observe d i.applied_at m db) db' e) (observe-Same d m db)

  carry_out-Same :
      (decision : Decision) (db : WorkDb) (o : WorkDb × Status)
      → carry_out i decision db ≡ some o
      → Same r n db o.0
  unfolding carry_out
  carry_out-Same (ignore_observation g) db o e =
      subst (λ (x : WorkDb × Status). Same r n db x.0) (some_inj (db, Status.ignored g) o e)
        (Same-refl db)
  carry_out-Same (request_reconciliation g) db o e = elim (Option-cases i.observation_sequence) [
    | inl q ↦ absurd (ground arith)
    | inr (m, q) ↦
        let x : WorkDb × Status = (
          enqueue_reconciliation (data_of i.snapshot) i.applied_at m db,
          Status.reconciliation_enqueued g,
        ) in
        subst (λ (x : WorkDb × Status). Same r n db x.0) (some_inj x o (ground arith))
          (enqueue-Same (data_of i.snapshot) m db)
  ]
  carry_out-Same (apply_snapshot s g is) db o e =
      elim (Option-cases (observed i.snapshot i.observation_sequence i.applied_at db)) [
        | inl q ↦ absurd (ground arith)
        | inr (db', q) ↦
            subst (λ (x : WorkDb × Status). Same r n db x.0)
              (some_inj (apply_decision i g is db') o (ground arith))
              (Same-trans r n db db' (apply_decision i g is db').0
                (observed-Same i.snapshot i.observation_sequence db db' q) (apply-Same g is db'))
      ]

-- A transition that is carried out leaves what is read of every other pull request, and keeps its work
-- in place.
pub transition_frame :
    (lower : String → String) (i : TransitionInput) (db : WorkDb) (o : WorkDb × Status) (r n : ℕ)
    → transition lower i db ≡ some o
    → (own_id i == r && own_number i == n) ≡ false
    → (tracked_state r n o.0 ≡ tracked_state r n db) × (Placed r n db → Placed r n o.0)
unfolding transition
transition_frame lower i db o r n e far = Same-state r n db o.0 (carry_out-Same i r n far _ db o e)
