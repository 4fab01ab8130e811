-- ===== src/Store/PullRequests/After.antt =====
-- The tables of src/store/pull-requests.ts after an applied decision.
use workflowd.Base.{
  ℕ, ◌≡◌, refl, ap, sym, subst, ◌∙◌, inl, inr, String, Bool, not, Option, none, some, List, arith,
  ◌==◌, find?, Bool-cases,
}
use workflowd.Domain.Transition.{PullRequestData, data_of, intents_for}
use workflowd.Store.Lease.{Row}
use workflowd.Store.Work.{PullRow, Job, WorkDb, pull_is}
use workflowd.Store.PullRequests.Tracked.{
  TransitionInput, review_of, latest_request, review_active, tracked_row, tracked_of, tracked_state,
}
use workflowd.Store.PullRequests.Write.{keep_time, put_pull, carry_out_intents}
use workflowd.Store.PullRequests.Intents.{intents-At, supersedes-intents}
use workflowd.Store.PullRequests.Placed.{generation_at, PlacedAt, Placed, strays-track}
use workflowd.Store.PullRequests.Carry.{carry-advances, carry-retires}
use workflowd.Store.PullRequests.Known.{Reaches, pull_after, find-put_pull}
use workflowd.Store.PullRequests.Machine.{keep_known, own_id, own_number, own_state}

after-state :
    (d : PullRequestData) (skip : Bool) (g at : ℕ) (found : Option PullRow)
    (before jobs : List (Row Job)) (latest : Option ℕ) (active : Bool)
    → latest_request (review_of d.repository.id d.pull_request.number g) jobs ≡ latest
    → review_active (review_of d.repository.id d.pull_request.number g) jobs ≡ active
    → tracked_row (pull_after d skip g at found) jobs ≡ record {
      tracked = keep_known (tracked_of found before) d;
      generation = g;
      latest_review_request_number = latest;
      review_request_active = active;
    }
after-state d skip g at none before jobs latest active l a = λ k. record {
  tracked = d;
  generation = g;
  latest_review_request_number = l k;
  review_request_active = a k;
}
after-state d skip g at (some row) before jobs latest active l a = λ k. record {
  tracked = keep_time d row.tracked;
  generation = g;
  latest_review_request_number = l k;
  review_request_active = a k;
}

after-generation :
    (d : PullRequestData) (skip : Bool) (g at : ℕ) (found : Option PullRow)
    → (pull_after d skip g at found).generation ≡ g
after-generation d skip g at none = refl
after-generation d skip g at (some row) = refl

-- The tables after an applied decision, where the reviews of its generation are known.
module _ (i : TransitionInput) (skip : Bool) (g : ℕ) (db after : WorkDb)
    (pulls : after.pull_requests
      ≡ put_pull (data_of i.snapshot) skip g i.applied_at db.pull_requests) where
  found-after :
      find? (pull_is (own_id i) (own_number i)) after.pull_requests
      ≡ some (
          pull_after
            (data_of i.snapshot)
            skip
            g
            i.applied_at
            (find? (pull_is (own_id i) (own_number i)) db.pull_requests))
  found-after =
      ap (find? (pull_is (own_id i) (own_number i))) pulls
      ∙ find-put_pull (data_of i.snapshot) skip g i.applied_at db.pull_requests

  pub state-after :
      (latest : Option ℕ) (active : Bool)
      → latest_request (review_of (own_id i) (own_number i) g) after.jobs ≡ latest
      → review_active (review_of (own_id i) (own_number i) g) after.jobs ≡ active
      → own_state i after
        ≡ some (record {
          tracked = keep_known (own_state i db) (data_of i.snapshot);
          generation = g;
          latest_review_request_number = latest;
          review_request_active = active;
        })
  unfolding tracked_state
  state-after latest active l a =
      ap (λ o. tracked_of o after.jobs) found-after
      ∙ ap some (
          after-state (data_of i.snapshot) skip g i.applied_at
            (find? (pull_is (own_id i) (own_number i)) db.pull_requests) db.jobs after.jobs latest
            active l a)

  pub Placed-after :
      PlacedAt (own_id i) (own_number i) (some g) after → Placed (own_id i) (own_number i) after
  Placed-after p =
      subst (λ o. PlacedAt (own_id i) (own_number i) o after)
        (sym (
          ap generation_at found-after
          ∙ ap some (
              after-generation (data_of i.snapshot) skip g i.applied_at
                (find? (pull_is (own_id i) (own_number i)) db.pull_requests))))
        p

pub placed-carried :
    (lower : String → String) (i : TransitionInput) (g : ℕ) (db : WorkDb) (found : Option PullRow)
    → Reaches found g
    → PlacedAt (own_id i) (own_number i) (generation_at found) db
    → PlacedAt
        (own_id i)
        (own_number i)
        (some g)
        (carry_out_intents i (intents_for lower (tracked_of found db.jobs) i.snapshot g) db)
placed-carried lower i g db none steps p =
    carry-retires i (own_id i) (own_number i) (some g) (intents_for lower none i.snapshot g) db
      (strays-track _ _ g db.jobs p.0, strays-track _ _ g db.publications p.1)
placed-carried lower i g db (some row) steps p =
    let c = some (tracked_row row db.jobs) in
    let is = intents_for lower c i.snapshot g in
    elim (Bool-cases (row.generation == g)) [
      | inl e ↦
          let same : row.generation ≡ g = ground arith in
          carry-retires i (own_id i) (own_number i) (some g) is db
            (subst (λ x. PlacedAt (own_id i) (own_number i) (some x) db) same p)
      | inr e ↦
          carry-advances i row.generation g steps is db (intents-At lower i.snapshot g c)
            (supersedes-intents lower i.snapshot g c ∙ ap not e) p
    ]
