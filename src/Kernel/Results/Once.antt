-- ===== src/Kernel/Results/Once.antt =====
-- `complete` of src/kernel/job-store.ts, by the holder of a claim, and again.
use workflowd.Base.{
  refl, ℕ, ◌<◌, List, Option, exists-split, true, false, none, some, [], ◌∷◌, ◌++◌, ◌≡◌, ap, ◌∙◌,
  arith, if◌then◌else◌, eq_iff, find?, exists, find?-append_none, exists-update_self,
}
use workflowd.Kernel.Db.{JobRow, JobState, Lease, Db, ok, err, Codec, conflict, after}
use workflowd.Kernel.Deliveries.{fresh, duplicate}
use workflowd.Kernel.Jobs.{ClaimAuthority, authorized, is_leased, holds_lease}
use workflowd.Kernel.Jobs.Sound.{Sound, update-Sound}
use workflowd.Kernel.Results.{
  CompleteInput, valid_complete, result_of, by_claim, same_result, succeed, new_result,
  stored_result, with_result, complete,
}

pub complete-Sound :
    (k : Codec) (i : CompleteInput) (db : Db) → Sound db → Sound (after db (complete k i db))
unfolding complete stored_result with_result
complete-Sound k i db s = ground (
  arith,
  update-Sound db s (authorized i.authority) (succeed i.authority.now) (λ j h v. ground arith),
)

complete_effect :
    (k : Codec) (i : CompleteInput) (db db' : Db)
    → complete k i db ≡ ok db' fresh
    → (exists (authorized i.authority) db.jobs ≡ true)
      × (find? (result_of i.authority.job_id) db.results ≡ none)
      × (db'.results ≡ db.results ++ new_result i ∷ [])
      × (exists (authorized i.authority) db'.jobs ≡ false)
unfolding complete stored_result with_result
complete_effect k i db db' e = ground (
  arith,
  exists-update_self (authorized i.authority) (succeed i.authority.now) (λ j h. ground arith)
      db.jobs,
)

pub stored_after :
    (k : Codec) (i : CompleteInput) (db db' : Db)
    → complete k i db ≡ ok db' fresh
    → find? (result_of i.authority.job_id) db'.results ≡ some (new_result i)
stored_after k i db db' e =
    let (_, free, stored, _) = complete_effect k i db db' e in
    ap (find? (result_of i.authority.job_id)) stored
    ∙ find?-append_none (result_of i.authority.job_id) db.results (new_result i) free
        (ground (arith, eq_iff i.authority.job_id i.authority.job_id))

-- The row of a job under the claim of an authority, while the claim's lease runs.
pub record IsClaimed (a : ClaimAuthority) (j : JobRow) : Type 0 where
  pub job : j.job_id ≡ a.job_id
  pub state : j.state ≡ JobState.leased
  pub attempt : j.attempt ≡ a.attempt
  pub lease :
      j.lease
      ≡ some (record {
        worker_id = a.worker_id;
        claim_token = a.claim_token;
        lease_until = a.expected_lease_until;
      })
  pub unexpired : a.now < a.expected_lease_until

leased_lem : (s : JobState) → is_leased s ≡ true → s ≡ JobState.leased
leased_lem JobState.leased h = refl
leased_lem JobState.ready h = cc
leased_lem JobState.retry_scheduled h = cc
leased_lem JobState.succeeded h = cc
leased_lem JobState.failed h = cc
leased_lem JobState.operator_required h = cc
leased_lem JobState.data_error h = cc

held_lease :
    (a : ClaimAuthority) (l : Option Lease)
    → holds_lease a l ≡ true
    → (l
        ≡ some (record {
          worker_id = a.worker_id;
          claim_token = a.claim_token;
          lease_until = a.expected_lease_until;
        }))
      × (a.now < a.expected_lease_until)
held_lease a none h = cc
held_lease a (some l) h =
    ground (arith, eq_iff l.worker_id a.worker_id, eq_iff l.claim_token a.claim_token)

authorized-IsClaimed : (a : ClaimAuthority) (j : JobRow) → authorized a j ≡ true → IsClaimed a j
authorized-IsClaimed a j h =
    let (lease, unexpired) = held_lease a j.lease (ground arith) in
    record {
      job = (eq_iff j.job_id a.job_id).0 (ground arith);
      state = leased_lem j.state (ground arith);
      attempt = ground arith;
      lease = lease;
      unexpired = unexpired;
    }

-- A completion that stores a result comes from the holder of the lease: the table has a row of the
-- job that is leased, on the claim's attempt, with the claim's worker, token and end of lease, and
-- that end is yet to come; no result of the job was stored, and the given one now is.
pub complete_needs_lease :
    (k : Codec) (i : CompleteInput) (db db' : Db)
    → complete k i db ≡ ok db' fresh
    → (j : JobRow) × (before : List JobRow) × (later : List JobRow) × (db.jobs
        ≡ before ++ j ∷ later)
      × IsClaimed i.authority j
      × (find? (result_of i.authority.job_id) db.results ≡ none)
      × (find? (result_of i.authority.job_id) db'.results ≡ some (new_result i))
complete_needs_lease k i db db' e =
    let (held, free, stored, gone) = complete_effect k i db db' e in
    let (j, before, later, same, hit) = exists-split (authorized i.authority) db.jobs held in
    (
      j,
      before,
      later,
      same,
      authorized-IsClaimed i.authority j hit,
      free,
      stored_after k i db db' e,
    )

by_claim_self : (i : CompleteInput) → by_claim i.authority (new_result i) ≡ true
by_claim_self i = ground (
  arith,
  eq_iff i.authority.worker_id i.authority.worker_id,
  eq_iff i.authority.claim_token i.authority.claim_token,
)

same_result_self : (i : CompleteInput) → same_result i (new_result i) ≡ true
same_result_self i = ground (arith, eq_iff i.result_id i.result_id, eq_iff i.result i.result)

-- Completing is idempotent: once a completion is stored, and its row decodes, a valid completion of
-- the same claim at any time, also when its lease is over, is a duplicate that changes nothing if it
-- carries the same result, and a conflict otherwise.
pub complete_again :
    (k : Codec) (i j : CompleteInput) (later : ℕ) (db db' : Db)
    → complete k i db ≡ ok db' fresh
    → k.result_decodes (new_result i) ≡ true
    → j.authority ≡ record i.authority { now = later }
    → valid_complete j ≡ true
    → complete k j db'
      ≡ (if same_result j (new_result i) then ok db' duplicate else err (conflict "result"))
unfolding complete stored_result
complete_again k i j later db db' e d same valid = ground (
  arith,
  stored_after k i db db' e,
  by_claim_self i,
  ap (λ (a : ClaimAuthority). by_claim a (new_result i)) same,
  ap (λ (a : ClaimAuthority). find? (result_of a.job_id) db'.results) same,
)
