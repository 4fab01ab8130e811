-- ===== src/Store/PullRequests/Refine.antt =====
-- src/store/pull-requests.ts implements the state machine of src/domain/pull-request-transition.ts.
use workflowd.Base.{
  ℕ, suc, ◌≡◌, refl, ◌⊎◌, sym, subst, inl, inr, String, Bool, true, false, ◌&&◌, Option, none, some,
  List, [], ◌∷◌, ◌++◌, arith, find?, exists, update, Bool-cases,
}
use workflowd.Domain.Transition.{
  PullRequestData, Snapshot, observation, authoritative, TrackedPullRequestState, Decision,
  ignore_observation, request_reconciliation, apply_snapshot, apply, intents_for, generation_for,
  decide_pull_request_transition, is_applied, observation_disposition, stale, ambiguous, ordered,
}
use workflowd.Store.Lease.{Row}
use workflowd.Store.Work.{PullRow, Job, Reconciliation, WorkDb, pull_is}
use workflowd.Store.PullRequests.Tracked.{
  TransitionInput, Status, ignored, reconciliation_enqueued, tracked_of, tracked_state,
}
use workflowd.Store.PullRequests.Write.{apply_decision}
use workflowd.Store.PullRequests.{carry_out, transition}
use workflowd.Store.PullRequests.Reconcile.{
  observe, reconciles, after_watermark, reset_reconciliation, new_reconciliation,
  enqueue_reconciliation,
}
use workflowd.Store.PullRequests.Placed.{Placed}
use workflowd.Store.PullRequests.Known.{Reaches}
use workflowd.Store.PullRequests.Machine.{follow, own_id, own_number, own_state}
use workflowd.Store.PullRequests.Apply.{apply-Implements}

-- An observation comes with its sequence.
abbrev pub sequenced : Snapshot → Option ℕ → Bool
sequenced (authoritative d) sequence = true
sequenced (observation action d) none = false
sequenced (observation action d) (some sequence) = true

-- The transition is carried out, follows the decision, and leaves no work out of place.
abbrev pub Follows : (String → String) → TransitionInput → WorkDb → WorkDb × Status → Type 0
Follows lower i db o =
    (transition lower i db ≡ some o)
    × ((own_state i o.0, o.1)
        ≡ follow (own_state i db) i.snapshot
            (decide_pull_request_transition lower (own_state i db) i.snapshot))
    × Placed (own_id i) (own_number i) o.0

row-Reaches :
    (found : Option PullRow) (d : PullRequestData) (jobs : List (Row Job))
    → Reaches found (generation_for (tracked_of found jobs) d.pull_request)
row-Reaches none d jobs = tt
row-Reaches (some row) d jobs = omega arith

pub enqueue_shape :
    (d : PullRequestData) (at n : ℕ) (db : WorkDb)
    → (rs : List (Row Reconciliation)) × (id : ℕ) × (enqueue_reconciliation d at n db
        ≡ record db { reconciliations = rs; next_reconciliation = id })
unfolding enqueue_reconciliation
enqueue_shape d at n db = elim (Bool-cases (exists (reconciles d) db.reconciliations)) [
  | inl e ↦ (
    update (λ r. reconciles d r && after_watermark at n r) (reset_reconciliation d at n)
        db.reconciliations,
    db.next_reconciliation,
    rw e refl,
  )
  | inr e ↦ (
    db.reconciliations ++ (new_reconciliation d at n db.next_reconciliation ∷ []),
    suc db.next_reconciliation,
    rw e refl,
  )
]

abbrev Carries : TransitionInput → WorkDb → Decision → Type 0
Carries i db decision =
    (o : WorkDb × Status) × (carry_out i decision db ≡ some o)
    × ((own_state i o.0, o.1) ≡ follow (own_state i db) i.snapshot decision)
    × Placed (own_id i) (own_number i) o.0

module _ (lower : String → String) (at : ℕ) (db : WorkDb) where
  Carries-authoritative :
      (d : PullRequestData) (sequence : Option ℕ)
      → let i : TransitionInput = record {
        applied_at = at;
        observation_sequence = sequence;
        snapshot = authoritative d;
      } in
        Placed d.repository.id d.pull_request.number db
        → Carries i db (apply lower (own_state i db) (authoritative d))
  unfolding apply carry_out tracked_state
  Carries-authoritative d sequence p =
      let i : TransitionInput = record {
        applied_at = at;
        observation_sequence = sequence;
        snapshot = authoritative d;
      } in
      let found = find? (pull_is (own_id i) (own_number i)) db.pull_requests in
      let g = generation_for (tracked_of found db.jobs) d.pull_request in
      let (same, after) = apply-Implements lower i g db (row-Reaches found d db.jobs) p in
      (
        apply_decision i g (intents_for lower (tracked_of found db.jobs) (authoritative d) g) db,
        refl,
        same,
        after,
      )

  Carries-observation :
      (action : String) (d : PullRequestData) (n : ℕ)
      → let i : TransitionInput = record {
        applied_at = at;
        observation_sequence = some n;
        snapshot = observation action d;
      } in
        Placed d.repository.id d.pull_request.number db
        → Carries i db (apply lower (own_state i db) (observation action d))
  unfolding apply carry_out tracked_state observe
  Carries-observation action d n p =
      let i : TransitionInput = record {
        applied_at = at;
        observation_sequence = some n;
        snapshot = observation action d;
      } in
      let found = find? (pull_is (own_id i) (own_number i)) db.pull_requests in
      let g = generation_for (tracked_of found db.jobs) d.pull_request in
      let db' = observe d at n db in
      let (same, after) = apply-Implements lower i g db' (row-Reaches found d db.jobs) p in
      (
        apply_decision i g (intents_for lower (tracked_of found db.jobs) (observation action d) g)
            db',
        refl,
        same,
        after,
      )

  Carries-unapplied :
      (action : String) (d : PullRequestData) (n : ℕ) (decision : Decision)
      → let i : TransitionInput = record {
        applied_at = at;
        observation_sequence = some n;
        snapshot = observation action d;
      } in
        is_applied decision ≡ false
        → Placed d.repository.id d.pull_request.number db
        → Carries i db decision
  unfolding carry_out tracked_state
  Carries-unapplied action d n (ignore_observation g) un p = ((db, ignored g), refl, refl, p)
  Carries-unapplied action d n (request_reconciliation g) un p =
      let i : TransitionInput = record {
        applied_at = at;
        observation_sequence = some n;
        snapshot = observation action d;
      } in
      let (rs, id, shape) = enqueue_shape d at n db in
      let kept : (own_state i (enqueue_reconciliation d at n db) ≡ own_state i db)
          × Placed d.repository.id d.pull_request.number (enqueue_reconciliation d at n db) =
        subst
          (λ (x : WorkDb).
            (own_state i x ≡ own_state i db) × Placed d.repository.id d.pull_request.number x)
          (sym shape) (refl, p) in
      (
        (enqueue_reconciliation d at n db, reconciliation_enqueued g),
        refl,
        (λ k. (kept.0 k, reconciliation_enqueued g)),
        kept.1,
      )
  Carries-unapplied action d n (apply_snapshot s g is') un p = cc

pub decide-authoritative :
    (lower : String → String) (c : Option TrackedPullRequestState) (d : PullRequestData)
    → decide_pull_request_transition lower c (authoritative d) ≡ apply lower c (authoritative d)
unfolding decide_pull_request_transition
decide-authoritative lower none d = refl
decide-authoritative lower (some c) d = refl

decide-observation :
    (lower : String → String) (c : Option TrackedPullRequestState) (action : String)
    (d : PullRequestData)
    → (is_applied (decide_pull_request_transition lower c (observation action d)) ≡ false)
      ⊎ (decide_pull_request_transition lower c (observation action d)
          ≡ apply lower c (observation action d))
unfolding decide_pull_request_transition
decide-observation lower none action d = inr refl
decide-observation lower (some c) action d =
    elim (observation_disposition c action d.pull_request)
      as (λ x.
        (is_applied (elim x [
          | stale ↦ ignore_observation c.generation
          | ambiguous ↦ request_reconciliation c.generation
          | ordered ↦ apply lower (some c) (observation action d)
        ])
          ≡ false)
        ⊎ (elim x [
          | stale ↦ ignore_observation c.generation
          | ambiguous ↦ request_reconciliation c.generation
          | ordered ↦ apply lower (some c) (observation action d)
        ]
            ≡ apply lower (some c) (observation action d))) [
              | stale ↦ inl refl
              | ambiguous ↦ inl refl
              | ordered ↦ inr refl
            ]

follows_snapshot :
    (lower : String → String) (at : ℕ) (sequence : Option ℕ) (s : Snapshot) (db : WorkDb)
    → let i : TransitionInput = record {
      applied_at = at;
      observation_sequence = sequence;
      snapshot = s;
    } in
      sequenced s sequence ≡ true
      → Placed (own_id i) (own_number i) db
      → Carries i db (decide_pull_request_transition lower (own_state i db) s)
follows_snapshot lower at sequence (authoritative d) db sent p =
    let i : TransitionInput = record {
      applied_at = at;
      observation_sequence = sequence;
      snapshot = authoritative d;
    } in
    subst (Carries i db) (sym (decide-authoritative lower (own_state i db) d))
      (Carries-authoritative lower at db d sequence p)
follows_snapshot lower at none (observation action d) db sent p = cc
follows_snapshot lower at (some n) (observation action d) db sent p =
    let i : TransitionInput = record {
      applied_at = at;
      observation_sequence = some n;
      snapshot = observation action d;
    } in
    elim (decide-observation lower (own_state i db) action d) [
      | inl un ↦ Carries-unapplied lower at db action d n _ un p
      | inr same ↦ subst (Carries i db) (sym same) (Carries-observation lower at db action d n p)
    ]

-- Where no work of the pull request is out of place, a transition (an observation with its sequence)
-- is carried out; the tracked state that the next one reads, and the answer, are those of the state
-- machine of the decision; and again no work of the pull request is out of place.
pub transition_refines :
    (lower : String → String) (i : TransitionInput) (db : WorkDb)
    → sequenced i.snapshot i.observation_sequence ≡ true
    → Placed (own_id i) (own_number i) db
    → (o : WorkDb × Status) × Follows lower i db o
unfolding transition
transition_refines lower i db sent p =
    let (o, out, same, after) =
      follows_snapshot lower i.applied_at i.observation_sequence i.snapshot db sent p in
    (o, (out, same, after))
