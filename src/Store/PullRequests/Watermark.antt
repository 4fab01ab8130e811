-- ===== src/Store/PullRequests/Watermark.antt =====
-- The watermark that src/store/pull-requests.ts leaves on the reconciliations of a pull request.
use workflowd.Base.{
  ℕ, ◌≡◌, refl, ap, subst, ◌∙◌, inl, inr, String, Bool, true, false, ◌&&◌, Option, none, some, List,
  [], ◌∷◌, arith, if◌then◌else◌, exists, exists-append, exists-update_self, Bool-cases,
}
use workflowd.Domain.Transition.{
  PullRequestData, observation, data_of, current_generation, earlier_review_requests, Intent,
  skip_automatic_review, queue_review, supersede_generation, supersede_review_requests, Decision,
  ignore_observation, request_reconciliation, apply_snapshot, decide_pull_request_transition,
}
use workflowd.Store.Lease.{Row}
use workflowd.Store.Work.{Reconciliation, WorkDb}
use workflowd.Store.Supersede.{supersede_pull_request_work, supersede_older_review_work}
use workflowd.Store.PullRequests.Tracked.{TransitionInput, Status, tracked_state}
use workflowd.Store.PullRequests.Reconcile.{
  reconciles, after_watermark, reset_reconciliation, new_reconciliation, mark_observed,
  enqueue_reconciliation, observe,
}
use workflowd.Store.PullRequests.Write.{
  same_request, queue, queue_or, queued, is_skip, supersedes_earlier, supersede_earlier,
  carry_out_intent, carry_out_intents, apply_decision,
}
use workflowd.Store.PullRequests.{carry_out, transition}
use workflowd.Store.PullRequests.Queue.{inserted}

-- A reconciliation of the pull request that the observation is later than.
abbrev pub behind : PullRequestData → ℕ → ℕ → List (Row Reconciliation) → Bool
behind d at n rows = exists (λ r. reconciles d r && after_watermark at n r) rows

abbrev pub ignores : Decision → Bool
ignores (ignore_observation g) = true
ignores _ = false

module _ (i : TransitionInput) where
  carry-reconciliations :
      (is : List Intent) (db : WorkDb)
      → (carry_out_intents i is db).reconciliations ≡ db.reconciliations
  unfolding supersede_pull_request_work
  carry-reconciliations [] db = refl
  carry-reconciliations (skip_automatic_review ∷ is) db = carry-reconciliations is db
  carry-reconciliations (queue_review n ∷ is) db = carry-reconciliations is db
  carry-reconciliations (supersede_generation h ∷ is) db =
      carry-reconciliations is (carry_out_intent i (supersede_generation h) db)
  carry-reconciliations (supersede_review_requests h current_generation ∷ is) db =
      carry-reconciliations is
        (carry_out_intent i (supersede_review_requests h current_generation) db)
  carry-reconciliations (supersede_review_requests h earlier_review_requests ∷ is) db =
      carry-reconciliations is db

  earlier-reconciliations :
      (is : List Intent) (id : ℕ) (db : WorkDb)
      → (supersede_earlier i is id db).reconciliations ≡ db.reconciliations
  unfolding supersede_older_review_work
  earlier-reconciliations is id db = elim (Bool-cases (exists supersedes_earlier is)) [
    | inl e ↦ rw e refl
    | inr e ↦ rw e refl
  ]

  queue-reconciliations :
      (g n : ℕ) (is : List Intent) (db : WorkDb)
      → (queue i g n is db).0.reconciliations ≡ db.reconciliations
  unfolding queue
  queue-reconciliations g n is db =
      elim (Bool-cases (exists (same_request (data_of i.snapshot) g n) db.jobs)) [
        | inl e ↦ rw e refl
        | inr e ↦ rw e (earlier-reconciliations is db.next_job (inserted i g n is db))
      ]

  queue_or-reconciliations :
      (g : ℕ) (next : Option ℕ) (is : List Intent) (db : WorkDb)
      → (queue_or i g next is db).0.reconciliations ≡ db.reconciliations
  queue_or-reconciliations g none is db = refl
  queue_or-reconciliations g (some n) is db = queue-reconciliations g n is db

  branch-reconciliations :
      (g : ℕ) (is : List Intent) (db : WorkDb) (b : Bool)
      → (if b then (db, Status.skipped g) else queue_or i g (queued is) is db).0.reconciliations
        ≡ db.reconciliations
  branch-reconciliations g is db true = refl
  branch-reconciliations g is db false = queue_or-reconciliations g (queued is) is db

  pub apply-reconciliations :
      (g : ℕ) (is : List Intent) (db : WorkDb)
      → (apply_decision i g is db).0.reconciliations ≡ db.reconciliations
  unfolding apply_decision
  apply-reconciliations g is db =
      branch-reconciliations g is (record (carry_out_intents i is db) { pull_requests = _ })
        (exists is_skip is)
      ∙ carry-reconciliations is db

observe-behind :
    (d : PullRequestData) (at n : ℕ) (db : WorkDb)
    → behind d at n (observe d at n db).reconciliations ≡ false
unfolding observe
observe-behind d at n db =
    exists-update_self (λ r. reconciles d r && after_watermark at n r) (mark_observed at n)
      (λ r h. ground arith) _

none-behind :
    (d : PullRequestData) (at n : ℕ) (rows : List (Row Reconciliation))
    → exists (reconciles d) rows ≡ false
    → behind d at n rows ≡ false
none-behind d at n [] e = refl
none-behind d at n (r ∷ rows) e = ground (arith, none-behind d at n rows)

enqueue-behind :
    (d : PullRequestData) (at n : ℕ) (db : WorkDb)
    → behind d at n (enqueue_reconciliation d at n db).reconciliations ≡ false
unfolding enqueue_reconciliation
enqueue-behind d at n db = elim (Bool-cases (exists (reconciles d) db.reconciliations)) [
  | inl e ↦ rw e (
      exists-update_self (λ r. reconciles d r && after_watermark at n r)
        (reset_reconciliation d at n) (λ r h. ground arith) db.reconciliations)
  | inr e ↦ rw e (
      exists-append (λ r. reconciles d r && after_watermark at n r) db.reconciliations
        (new_reconciliation d at n db.next_reconciliation ∷ [])
      ∙ ground (arith, none-behind d at n db.reconciliations e))
]

carry_out-behind :
    (at n : ℕ) (action : String) (d : PullRequestData) (decision : Decision) (db : WorkDb)
    (o : WorkDb × Status)
    → carry_out
        (record { applied_at = at; observation_sequence = some n; snapshot = observation action d })
        decision
        db
      ≡ some o
    → ignores decision ≡ false
    → behind d at n o.0.reconciliations ≡ false
unfolding carry_out
carry_out-behind at n action d (ignore_observation g) db o e h = cc
carry_out-behind at n action d (request_reconciliation g) db o e h =
    let same : enqueue_reconciliation d at n db ≡ o.0 = ground arith in
    subst (λ (x : WorkDb). behind d at n x.reconciliations ≡ false) same (enqueue-behind d at n db)
carry_out-behind at n action d (apply_snapshot s g is) db o e h =
    let i : TransitionInput = record {
      applied_at = at;
      observation_sequence = some n;
      snapshot = observation action d;
    } in
    let same : (apply_decision i g is (observe d at n db)).0 ≡ o.0 = ground arith in
    subst (λ (x : WorkDb). behind d at n x.reconciliations ≡ false) same
      (ap (behind d at n) (apply-reconciliations i g is (observe d at n db))
        ∙ observe-behind d at n db)

-- Where an observation is not ignored, no reconciliation of its pull request is left with a watermark
-- that the observation is later than, or without one.
pub transition_watermark :
    (lower : String → String) (at n : ℕ) (action : String) (d : PullRequestData) (db : WorkDb)
    (o : WorkDb × Status)
    → transition lower
        (record { applied_at = at; observation_sequence = some n; snapshot = observation action d })
        db
      ≡ some o
    → ignores (
        decide_pull_request_transition lower
          (tracked_state d.repository.id d.pull_request.number db)
          (observation action d))
      ≡ false
    → behind d at n o.0.reconciliations ≡ false
unfolding transition
transition_watermark lower at n action d db o e h = carry_out-behind at n action d _ db o e h
