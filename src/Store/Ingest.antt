-- ===== src/Store/Ingest.antt =====
-- src/store/deliveries.ts with `insertDelivery` of src/store/shared.ts, and `applyReconciliationSnapshot`
-- of src/store/reconciliations.ts: the two ways to a transition. `none` is a defect, which rolls back.
pub mod Once
pub mod Settle
mod Tests
use workflowd.Base.{
  ℕ, suc, String, Bool, true, false, not, ◌&&◌, Option, none, some, List, [], ◌∷◌, ◌++◌, max,
  if◌then◌else◌, ◌==◌, str_eq, find?, exists, update,
}
use workflowd.Domain.Transition.{PullRequestData, Snapshot, observation, authoritative}
use workflowd.Store.Lease.{Row, WorkState, holds}
use workflowd.Store.Work.{Reconciliation, WorkDb}
use workflowd.Store.PullRequests.Tracked.{Status, reconciliation_enqueued}
use workflowd.Store.PullRequests.{transition}
use workflowd.Store.PullRequests.Reconcile.{reconciles}

pub record Delivery : Type 0 where
  pub delivery_id : String
  pub event : String
  pub action : Option String
  pub payload : String
  pub received_at : ℕ

pub record DeliveryRow : Type 0 where
  pub delivery : Delivery
  pub observation_sequence : ℕ

pub record Store : Type 0 where
  pub deliveries : List DeliveryRow
  pub work : WorkDb

abbrev pub delivery_is : String → DeliveryRow → Bool
delivery_is id row = str_eq row.delivery.delivery_id id

-- `COALESCE(MAX(observation_sequence), 0)`.
abbrev pub last_sequence : List DeliveryRow → ℕ
last_sequence [] = 0
last_sequence (row ∷ rows) = max row.observation_sequence (last_sequence rows)

-- `insertDelivery`: the row of a delivery that is not there yet.
unfoldable pub insert_delivery : Delivery → List DeliveryRow → Option (List DeliveryRow × ℕ)
insert_delivery d rows =
    if exists (delivery_is d.delivery_id) rows
    then none
    else some (
      rows ++ (record { delivery = d; observation_sequence = suc (last_sequence rows) } ∷ []),
      suc (last_sequence rows),
    )

pub data Ingested : Type 0 where
  duplicate : Ingested
  applied : Status → Ingested

abbrev pub observe_at :
    (String → String) → Delivery → String → PullRequestData → WorkDb → ℕ → Option (WorkDb × Status)
observe_at lower d action pr db sequence =
    transition lower
      (record {
        applied_at = d.received_at;
        observation_sequence = some sequence;
        snapshot = observation action pr;
      })
      db

-- `ingestPullRequest`.
unfoldable pub ingest_pull_request :
    (String → String) → Delivery → String → PullRequestData → Store → Option (Store × Ingested)
unfolding insert_delivery
ingest_pull_request lower d action pr s = elim (insert_delivery d s.deliveries) [
  | none ↦ some (s, duplicate)
  | some (rows, sequence) ↦ elim (observe_at lower d action pr s.work sequence) [
    | none ↦ none
    | some (db, status) ↦ some (record { deliveries = rows; work = db }, applied status)
  ]
]

-- `recordDelivery`.
pub record_delivery : Delivery → Store → Store × Bool
record_delivery d s = elim (insert_delivery d s.deliveries) [
  | none ↦ (s, false)
  | some (rows, sequence) ↦ (record s { deliveries = rows }, true)
]

pub record ReconciliationSnapshot : Type 0 where
  pub reconciliation_id : ℕ
  pub worker_id : String
  pub completed_at : ℕ
  pub snapshot : PullRequestData

pub data Reconciled : Type 0 where
  completed stale : Reconciled

abbrev pub leased_row : ReconciliationSnapshot → Row Reconciliation → Bool
leased_row i row = holds i.reconciliation_id i.worker_id i.completed_at row

abbrev pub claimed_row : ReconciliationSnapshot → Row Reconciliation → Bool
claimed_row i row =
    leased_row i row
    && row.entry.installation_id == i.snapshot.installation_id
    && reconciles i.snapshot row

abbrev pub finish_row : ℕ → Row Reconciliation → Row Reconciliation
finish_row at row = record row {
  state = WorkState.succeeded;
  lease_owner = none;
  lease_until = none;
  last_error = none;
  updated_at = at;
}

abbrev pub is_requested : Status → Bool
is_requested (reconciliation_enqueued g) = true
is_requested _ = false

abbrev pub finish : ReconciliationSnapshot → WorkDb → WorkDb × Reconciled
finish i db =
    if exists (leased_row i) db.reconciliations
    then (
      record db {
        reconciliations = update (leased_row i) (finish_row i.completed_at) db.reconciliations;
      },
      completed,
    )
    else (db, stale)

-- `applyReconciliationSnapshot`.
unfoldable pub apply_reconciliation_snapshot :
    (String → String) → ReconciliationSnapshot → WorkDb → Option (WorkDb × Reconciled)
apply_reconciliation_snapshot lower i db =
    let result =
      transition lower
        (record {
          applied_at = i.completed_at;
          observation_sequence = none;
          snapshot = authoritative i.snapshot;
        })
        db in
    if exists (claimed_row i) db.reconciliations
    then elim result [
      | none ↦ none
      | some (db', status) ↦ if is_requested status then none else some (finish i db')
    ]
    else some (db, stale)
