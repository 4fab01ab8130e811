-- ===== src/Store/Ingest/Once.antt =====
-- Deliveries of src/store/deliveries.ts that come again, after any calls in between.
use workflowd.Base.{
  Bool, false, Option, none, List, suc, ◌≡◌, refl, ap, subst, ◌∙◌, inl, inr, String, true, some, [],
  ◌∷◌, ◌++◌, arith, eq_iff, exists, exists-append, Bool-cases, Option-cases,
}
use workflowd.Domain.Transition.{PullRequestData}
use workflowd.Store.Work.{WorkDb}
use workflowd.Store.Ingest.{
  Delivery, DeliveryRow, Store, delivery_is, last_sequence, insert_delivery, duplicate, Ingested,
  observe_at, ingest_pull_request, record_delivery, ReconciliationSnapshot, Reconciled,
  apply_reconciliation_snapshot,
}

recorded :
    (lower : String → String) (d : Delivery) (action : String) (pr : PullRequestData) (s s' : Store)
    (r : Ingested)
    → ingest_pull_request lower d action pr s ≡ some (s', r)
    → exists (delivery_is d.delivery_id) s'.deliveries ≡ true
unfolding ingest_pull_request
recorded lower d action pr s s' r e =
    elim (Bool-cases (exists (delivery_is d.delivery_id) s.deliveries)) [
      | inl old ↦
          let same : s.deliveries ≡ s'.deliveries = ground arith in
          subst (λ rows. exists (delivery_is d.delivery_id) rows ≡ true) same old
      | inr new ↦
          elim (Option-cases
            (observe_at lower d action pr s.work (suc (last_sequence s.deliveries)))) [
              | inl q ↦ absurd (ground arith)
              | inr (o, q) ↦
                  let row : DeliveryRow = record {
                    delivery = d;
                    observation_sequence = suc (last_sequence s.deliveries);
                  } in
                  let same : (s.deliveries ++ (row ∷ [])) ≡ s'.deliveries = ground arith in
                  subst (λ rows. exists (delivery_is d.delivery_id) rows ≡ true) same
                    (exists-append (delivery_is d.delivery_id) s.deliveries (row ∷ [])
                      ∙ ground (arith, eq_iff d.delivery_id d.delivery_id))
            ]
    ]

-- What may come between two deliveries: the operations on deliveries and reconciliations, and any
-- other statements on the tables of work. A defect is rolled back.
pub data Call : Type 0 where
  ingests : Delivery → String → PullRequestData → Call
  records : Delivery → Call
  reconciles : ReconciliationSnapshot → Call
  works : (WorkDb → WorkDb) → Call

abbrev kept : Store → Option (Store × Ingested) → Store
kept s none = s
kept s (some o) = o.0

abbrev kept_work : Store → Option (WorkDb × Reconciled) → Store
kept_work s none = s
kept_work s (some o) = record s { work = o.0 }

pub step : (String → String) → Store → Call → Store
step lower s (ingests d action pr) = kept s (ingest_pull_request lower d action pr s)
step lower s (records d) = (record_delivery d s).0
step lower s (reconciles i) = kept_work s (apply_reconciliation_snapshot lower i s.work)
step lower s (works f) = record s { work = f s.work }

pub run : (String → String) → Store → List Call → Store
run lower s [] = s
run lower s (c ∷ cs) = run lower (step lower s c) cs

abbrev has_delivery : String → Store → Bool
has_delivery id s = exists (delivery_is id) s.deliveries

append-keeps :
    (id : String) (rows more : List DeliveryRow)
    → exists (delivery_is id) rows ≡ true
    → exists (delivery_is id) (rows ++ more) ≡ true
append-keeps id rows more h = exists-append (delivery_is id) rows more ∙ ground arith

ingest-keeps :
    (lower : String → String) (s : Store) (d : Delivery) (action : String) (pr : PullRequestData)
    (id : String)
    → has_delivery id s ≡ true
    → has_delivery id (kept s (ingest_pull_request lower d action pr s)) ≡ true
unfolding ingest_pull_request
ingest-keeps lower s d action pr id h =
    elim (Bool-cases (exists (delivery_is d.delivery_id) s.deliveries)) [
      | inl old ↦ rw (old, ingest_pull_request, kept) h
      | inr new ↦
          elim (Option-cases
            (observe_at lower d action pr s.work (suc (last_sequence s.deliveries)))) [
              | inl q ↦ rw (new, ingest_pull_request, kept) (rw (q, ingest_pull_request, kept) h)
              | inr (o, q) ↦
                  rw (new, ingest_pull_request, kept)
                    (rw (q, ingest_pull_request, kept) (append-keeps id s.deliveries _ h))
            ]
    ]

record-keeps :
    (s : Store) (d : Delivery) (id : String)
    → has_delivery id s ≡ true
    → has_delivery id (record_delivery d s).0 ≡ true
unfolding record_delivery insert_delivery
record-keeps s d id h = elim (Bool-cases (exists (delivery_is d.delivery_id) s.deliveries)) [
  | inl old ↦ rw (old, record_delivery) h
  | inr new ↦ rw (new, record_delivery) (append-keeps id s.deliveries _ h)
]

reconcile-keeps :
    (s : Store) (o : Option (WorkDb × Reconciled)) (id : String)
    → has_delivery id s ≡ true
    → has_delivery id (kept_work s o) ≡ true
reconcile-keeps s none id h = h
reconcile-keeps s (some o) id h = h

step-keeps :
    (lower : String → String) (s : Store) (c : Call) (id : String)
    → has_delivery id s ≡ true
    → has_delivery id (step lower s c) ≡ true
unfolding step
step-keeps lower s (ingests d action pr) id h = ingest-keeps lower s d action pr id h
step-keeps lower s (records d) id h = record-keeps s d id h
step-keeps lower s (reconciles i) id h =
    reconcile-keeps s (apply_reconciliation_snapshot lower i s.work) id h
step-keeps lower s (works f) id h = h

run-keeps :
    (lower : String → String) (s : Store) (cs : List Call) (id : String)
    → has_delivery id s ≡ true
    → has_delivery id (run lower s cs) ≡ true
unfolding run
run-keeps lower s [] id h = h
run-keeps lower s (c ∷ cs) id h = run-keeps lower (step lower s c) cs id (step-keeps lower s c id h)

-- A delivery that was ingested is a duplicate from then on: after any calls in between, the same id
-- again, whatever it carries, is answered as a duplicate, and neither ingesting nor recording it
-- changes anything.
pub ingest_once :
    (lower : String → String) (d d' : Delivery) (action action' : String) (pr pr' : PullRequestData)
    (s s' : Store) (r : Ingested) (cs : List Call)
    → ingest_pull_request lower d action pr s ≡ some (s', r)
    → d'.delivery_id ≡ d.delivery_id
    → (ingest_pull_request lower d' action' pr' (run lower s' cs)
        ≡ some (run lower s' cs, duplicate))
      × (record_delivery d' (run lower s' cs) ≡ (run lower s' cs, false))
unfolding ingest_pull_request record_delivery insert_delivery
ingest_once lower d d' action action' pr pr' s s' r cs e same =
    let old : has_delivery d'.delivery_id (run lower s' cs) ≡ true =
      run-keeps lower s' cs d'.delivery_id (
        ap (λ id. exists (delivery_is id) s'.deliveries) same
        ∙ recorded lower d action pr s s' r e) in
    (rw (old, ingest_pull_request) refl, rw (old, record_delivery) refl)
