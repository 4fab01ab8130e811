-- ===== src/Store/PullRequests/Apply.antt =====
-- src/store/pull-requests.ts carries out an applied decision as the state machine says.
use workflowd.Base.{
  ℕ, ◌≡◌, refl, ap, sym, subst, ◌∙◌, String, Bool, true, false, ◌||◌, Option, none, some, List,
  if◌then◌else◌, find?, exists,
}
use workflowd.Domain.Transition.{
  data_of, TrackedPullRequestState, Intent, apply_snapshot, intents_for,
}
use workflowd.Store.Work.{PullRow, WorkDb, pull_is}
use workflowd.Store.PullRequests.Tracked.{
  TransitionInput, Status, ignored, skipped, enqueued, review_of, latest_request, review_active,
  tracked_of, tracked_state,
}
use workflowd.Store.PullRequests.Write.{
  put_pull, queue, queue_or, queued, is_skip, supersede_earlier, carry_out_intents, apply_decision,
}
use workflowd.Store.PullRequests.Intents.{
  withdraws, known_latest, intents-At, queued-intents, skips_queue_nothing, next-exceeds,
}
use workflowd.Store.PullRequests.Reviews.{exceeds}
use workflowd.Store.PullRequests.Placed.{PlacedAt, Placed}
use workflowd.Store.PullRequests.Carry.{carry-pulls, carry-latest, carry-active}
use workflowd.Store.PullRequests.Queue.{
  inserted, queue-inserts, queued-latest, queued-active, queued-pulls, queued-Placed,
}
use workflowd.Store.PullRequests.Known.{known_active, Reaches, find-Fits, known}
use workflowd.Store.PullRequests.Machine.{
  newest, is_queued, answered, follow, own_id, own_number, own_state,
}
use workflowd.Store.PullRequests.After.{placed-carried, state-after, Placed-after}

module _ (lower : String → String) (i : TransitionInput) (g : ℕ) (db : WorkDb)
    (reaches : Reaches (find? (pull_is (own_id i) (own_number i)) db.pull_requests) g)
    (placed : Placed (own_id i) (own_number i) db) where
  abbrev pub found_row : Option PullRow
  found_row = find? (pull_is (own_id i) (own_number i)) db.pull_requests

  abbrev pub cur : Option TrackedPullRequestState
  cur = tracked_of found_row db.jobs

  abbrev pub is : List Intent
  is = intents_for lower cur i.snapshot g

  abbrev pub carried : WorkDb
  carried = carry_out_intents i is db

  abbrev pub stored : WorkDb
  stored = record carried {
    pull_requests =
        put_pull (data_of i.snapshot) (exists is_skip is) g i.applied_at carried.pull_requests;
  }

  known_before :
      (latest_request (review_of (own_id i) (own_number i) g) db.jobs ≡ known_latest cur g)
      × (review_active (review_of (own_id i) (own_number i) g) db.jobs ≡ known_active cur g)
  known_before =
      known (own_id i) (own_number i) g found_row db.jobs
        (find-Fits (own_id i) (own_number i) db.pull_requests) reaches placed.0

  carried_latest :
      latest_request (review_of (own_id i) (own_number i) g) carried.jobs ≡ known_latest cur g
  carried_latest = carry-latest i (own_id i) (own_number i) g is db ∙ known_before.0

  carried_active :
      review_active (review_of (own_id i) (own_number i) g) carried.jobs
      ≡ (if exists withdraws is then false else known_active cur g)
  carried_active =
      carry-active i g is db (intents-At lower i.snapshot g cur)
      ∙ ap (λ b. if exists withdraws is then false else b) known_before.1

  stored_pulls :
      stored.pull_requests
      ≡ put_pull (data_of i.snapshot) (exists is_skip is) g i.applied_at db.pull_requests
  stored_pulls =
      ap (put_pull (data_of i.snapshot) (exists is_skip is) g i.applied_at) (carry-pulls i is db)

  stored_placed : PlacedAt (own_id i) (own_number i) (some g) stored
  stored_placed = placed-carried lower i g db found_row reaches placed

  abbrev pub Implements : WorkDb × Status → Type 0
  Implements o =
      ((own_state i o.0, o.1) ≡ follow (own_state i db) i.snapshot (apply_snapshot i.snapshot g is))
      × Placed (own_id i) (own_number i) o.0

  -- Without a review to queue.
  stored-Implements :
      (status : Status)
      → queued is ≡ none
      → status ≡ (if exists is_skip is then skipped g else answered g (queued is))
      → Implements (stored, status)
  unfolding tracked_state
  stored-Implements status q same = (
    λ k. (
      (state-after i (exists is_skip is) g db stored stored_pulls
            (newest (queued is) (known_latest cur g))
            (is_queued (queued is) || (if exists withdraws is then false else known_active cur g))
            (rw q carried_latest) (rw q carried_active))
          k,
      same k,
    ),
    Placed-after i (exists is_skip is) g db stored stored_pulls stored_placed,
  )

  queued-Implements :
      (n : ℕ) → queued is ≡ some n → exists is_skip is ≡ false → Implements (queue i g n is stored)
  unfolding tracked_state
  queued-Implements n q noskip =
      let after = supersede_earlier i is stored.next_job (inserted i g n is stored) in
      let above =
        ap (exceeds n) carried_latest
        ∙ next-exceeds lower i.snapshot g cur n (sym (queued-intents lower i.snapshot g cur) ∙ q) in
      let status : enqueued g ≡ (if exists is_skip is then skipped g else answered g (queued is)) =
        rw (noskip, q) refl in
      let pulls = queued-pulls i g n is stored ∙ stored_pulls in
      subst Implements (sym (queue-inserts i g n is stored above)) (
        λ k. (
          (state-after i (exists is_skip is) g db after pulls
                (newest (queued is) (known_latest cur g))
                (is_queued (queued is)
                  || (if exists withdraws is then false else known_active cur g))
                (rw q (queued-latest i g n is stored above)) (rw q (queued-active i g n is stored)))
              k,
          status k,
        ),
        Placed-after i (exists is_skip is) g db after pulls
            (queued-Placed i g n is stored stored_placed),
      )

  queue_or-Implements :
      (next : Option ℕ)
      → queued is ≡ next
      → exists is_skip is ≡ false
      → Implements (queue_or i g next is stored)
  queue_or-Implements none q noskip = stored-Implements (ignored g) q (rw (noskip, q) refl)
  queue_or-Implements (some n) q noskip = queued-Implements n q noskip

  branch-Implements :
      (b : Bool)
      → exists is_skip is ≡ b
      → Implements (if b then (stored, skipped g) else queue_or i g (queued is) is stored)
  branch-Implements true e =
      stored-Implements (skipped g)
        (queued-intents lower i.snapshot g cur ∙ skips_queue_nothing lower i.snapshot g cur e)
        (rw e refl)
  branch-Implements false e = queue_or-Implements (queued is) refl e

  pub apply-Implements : Implements (apply_decision i g is db)
  unfolding apply_decision
  apply-Implements = branch-Implements (exists is_skip is) refl
