-- ===== src/Store/Ingest/Settle.antt =====
-- The snapshot of a claimed reconciliation settles it, in `applyReconciliationSnapshot` of
-- src/store/reconciliations.ts.
use workflowd.Base.{
  ℕ, ◌≡◌, refl, ap, subst, sym, ◌∙◌, inl, inr, String, true, false, Option, none, some, List, arith,
  exists, exists-All, exists-update_self, update, All-of, Bool-cases,
}
use workflowd.Domain.Transition.{
  Snapshot, authoritative, TrackedPullRequestState, apply, intents_for, generation_for, data_of,
  decide_pull_request_transition,
}
use workflowd.Store.Lease.{Row}
use workflowd.Store.Work.{Reconciliation, WorkDb}
use workflowd.Store.PullRequests.Tracked.{TransitionInput, Status, tracked_state}
use workflowd.Store.PullRequests.Write.{apply_decision, queued, is_skip}
use workflowd.Store.PullRequests.{carry_out, transition}
use workflowd.Store.PullRequests.Placed.{Placed}
use workflowd.Store.PullRequests.Machine.{follow, answered, own_state}
use workflowd.Store.PullRequests.Refine.{transition_refines, decide-authoritative}
use workflowd.Store.PullRequests.Watermark.{apply-reconciliations}
use workflowd.Store.Ingest.{
  ReconciliationSnapshot, completed, leased_row, claimed_row, finish_row, is_requested,
  apply_reconciliation_snapshot,
}

abbrev snapshot_input : ReconciliationSnapshot → TransitionInput
snapshot_input i = record {
  applied_at = i.completed_at;
  observation_sequence = none;
  snapshot = authoritative i.snapshot;
}

answered-unrequested : (g : ℕ) (next : Option ℕ) → is_requested (answered g next) ≡ false
answered-unrequested g none = refl
answered-unrequested g (some n) = refl

apply-unrequested :
    (lower : String → String) (c : Option TrackedPullRequestState) (s : Snapshot)
    → is_requested (follow c s (apply lower c s)).1 ≡ false
unfolding apply
apply-unrequested lower c s =
    let g = generation_for c (data_of s).pull_request in
    let is = intents_for lower c s g in
    elim (Bool-cases (exists is_skip is)) [
      | inl e ↦ rw e refl
      | inr e ↦ rw e (answered-unrequested g (queued is))
    ]

carry-reconciliations_kept :
    (lower : String → String) (i : ReconciliationSnapshot) (c : Option TrackedPullRequestState)
    (db : WorkDb) (o : WorkDb × Status)
    → carry_out (snapshot_input i) (apply lower c (authoritative i.snapshot)) db ≡ some o
    → o.0.reconciliations ≡ db.reconciliations
unfolding carry_out apply
carry-reconciliations_kept lower i c db o e =
    let g = generation_for c i.snapshot.pull_request in
    let is = intents_for lower c (authoritative i.snapshot) g in
    let same : (apply_decision (snapshot_input i) g is db).0 ≡ o.0 = ground arith in
    ap (λ (x : WorkDb). x.reconciliations) (sym same)
    ∙ apply-reconciliations (snapshot_input i) g is db

snapshot-reconciliations :
    (lower : String → String) (i : ReconciliationSnapshot) (db : WorkDb) (o : WorkDb × Status)
    → transition lower (snapshot_input i) db ≡ some o
    → o.0.reconciliations ≡ db.reconciliations
unfolding transition
snapshot-reconciliations lower i db o e =
    let c = own_state (snapshot_input i) db in
    carry-reconciliations_kept lower i c db o (
      subst (λ x. carry_out (snapshot_input i) x db ≡ some o)
        (decide-authoritative lower c i.snapshot) e)

-- The claim is settled, and the pull request is what the decision makes of it.
abbrev pub Settled : (String → String) → ReconciliationSnapshot → WorkDb → WorkDb → Type 0
Settled lower i db db' =
    (exists (leased_row i) db'.reconciliations ≡ false)
    × (tracked_state i.snapshot.repository.id i.snapshot.pull_request.number db'
        ≡ (follow (tracked_state i.snapshot.repository.id i.snapshot.pull_request.number db)
            (authoritative i.snapshot)
            (decide_pull_request_transition lower
              (tracked_state i.snapshot.repository.id i.snapshot.pull_request.number db)
              (authoritative i.snapshot))).0)
    × Placed i.snapshot.repository.id i.snapshot.pull_request.number db'

abbrev settled : ReconciliationSnapshot → WorkDb → WorkDb
settled i db = record db {
  reconciliations = update (leased_row i) (finish_row i.completed_at) db.reconciliations;
}

finish-Settled :
    (i : ReconciliationSnapshot) (rows : List (Row Reconciliation))
    → exists (leased_row i) (update (leased_row i) (finish_row i.completed_at) rows) ≡ false
finish-Settled i rows =
    exists-update_self (leased_row i) (finish_row i.completed_at) (λ r e. ground arith) rows

settle_run :
    (lower : String → String) (i : ReconciliationSnapshot) (db : WorkDb) (o : WorkDb × Status)
    → transition lower (snapshot_input i) db ≡ some o
    → exists (claimed_row i) db.reconciliations ≡ true
    → exists (leased_row i) o.0.reconciliations ≡ true
    → is_requested o.1 ≡ false
    → apply_reconciliation_snapshot lower i db ≡ some (settled i o.0, completed)
unfolding apply_reconciliation_snapshot
settle_run lower i db o out claimed leased quiet = ground arith

-- Where the worker holds the claim of a reconciliation of the snapshot's pull request, and no work of
-- it is out of place, the snapshot is applied without a defect: the reconciliation is completed and
-- its lease given up, the tracked state follows the decision, and no work is out of place.
pub reconciliation_settles :
    (lower : String → String) (i : ReconciliationSnapshot) (db : WorkDb)
    → exists (claimed_row i) db.reconciliations ≡ true
    → Placed i.snapshot.repository.id i.snapshot.pull_request.number db
    → (db' : WorkDb) × (apply_reconciliation_snapshot lower i db ≡ some (db', completed))
      × Settled lower i db db'
unfolding apply_reconciliation_snapshot tracked_state
reconciliation_settles lower i db claimed p =
    let (o, (out, same, after)) = transition_refines lower (snapshot_input i) db refl p in
    let kept = snapshot-reconciliations lower i db o out in
    let leased : exists (leased_row i) o.0.reconciliations ≡ true =
      ap (exists (leased_row i)) kept
      ∙ exists-All (claimed_row i) (leased_row i) db.reconciliations
          (All-of _ (λ r h. ground arith) db.reconciliations) claimed in
    let c = own_state (snapshot_input i) db in
    let quiet : is_requested o.1 ≡ false =
      ap (λ (x : Option TrackedPullRequestState × Status). is_requested x.1) same
      ∙ (ap (λ x. is_requested (follow c (authoritative i.snapshot) x).1)
            (decide-authoritative lower c i.snapshot)
          ∙ apply-unrequested lower c (authoritative i.snapshot)) in
    (
      settled i o.0,
      settle_run lower i db o out claimed leased quiet,
      (
        finish-Settled i o.0.reconciliations,
        ap (λ (x : Option TrackedPullRequestState × Status). x.0) same,
        after,
      ),
    )
