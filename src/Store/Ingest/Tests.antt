-- ===== src/Store/Ingest/Tests.antt =====
-- The ways to a transition on concrete tables, and the theorems at those inputs.
use workflowd.Base.{List, false, ◌∷◌, Option, none, some, [], ◌≡◌, refl}
use workflowd.Domain.Transition.{
  PullRequestData, decide_pull_request_transition, observation_disposition, is_reviewable,
  automatic_review_trusted, next_review_request_number,
}
use workflowd.Store.Work.{WorkDb}
use workflowd.Store.Supersede.{supersede_pull_request_work}
use workflowd.Store.PullRequests.{transition}
use workflowd.Store.Fixtures.{lower, pull, tables}
use workflowd.Store.Ingest.{
  Delivery, Store, duplicate, Ingested, ingest_pull_request, record_delivery,
  ReconciliationSnapshot, completed, apply_reconciliation_snapshot,
}
use workflowd.Store.Ingest.Once.{Call, records, reconciles, works, run, ingest_once}
use workflowd.Store.Ingest.Settle.{Settled, reconciliation_settles}

abbrev delivery : Delivery
delivery = record {
  delivery_id = "d1";
  event = "pull_request";
  action = some "synchronize";
  payload = "{}";
  received_at = 20;
}

abbrev store : Store
store = record { deliveries = []; work = tables }

abbrev pushed : PullRequestData
pushed = pull "h2" "2026-01-02"

abbrev or_store : Option (Store × Ingested) → Store × Ingested
or_store none = (store, duplicate)
or_store (some o) = o

abbrev ingested : Store × Ingested
ingested = or_store (ingest_pull_request lower delivery "synchronize" pushed store)

push-ingested : ingest_pull_request lower delivery "synchronize" pushed store ≡ some ingested
unfolding ingest_pull_request transition decide_pull_request_transition observation_disposition
    is_reviewable automatic_review_trusted next_review_request_number supersede_pull_request_work
push-ingested = refl

abbrev snapshot : ReconciliationSnapshot
snapshot = record { reconciliation_id = 1; worker_id = "w1"; completed_at = 30; snapshot = pushed }

-- Another delivery, a reconciliation and a change of the work come before the repetition.
abbrev between : List Call
between =
    records (record delivery { delivery_id = "d2" })
    ∷ reconciles snapshot
    ∷ works (λ db. record db { reconciliations = [] })
    ∷ []

ingest_once_example :
    (ingest_pull_request lower delivery "closed"
        (pull "h3" "2026-01-03")
        (run lower ingested.0 between)
      ≡ some (run lower ingested.0 between, duplicate))
    × (record_delivery delivery (run lower ingested.0 between)
        ≡ (run lower ingested.0 between, false))
ingest_once_example =
    ingest_once lower delivery delivery "synchronize" "closed" pushed (pull "h3" "2026-01-03") store
      ingested.0 ingested.1 between push-ingested refl

reconciliation_settles_example :
    (db' : WorkDb) × (apply_reconciliation_snapshot lower snapshot tables ≡ some (db', completed))
    × Settled lower snapshot tables db'
reconciliation_settles_example = reconciliation_settles lower snapshot tables refl (refl, refl)
