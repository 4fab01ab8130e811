-- ===== src/Kernel/Claims/Fencing.antt =====
-- A claim of src/kernel/job-store.ts holds the job alone.
use workflowd.Base.{
  ℕ, suc, ◌≤◌, ◌<◌, String, Bool, true, false, none, some, List, ◌≡◌, ◌≢◌, refl, sym, ap, ◌∙◌,
  subst, arith, eq_iff, exists, find?, All, All-update, All-map, exists-none, exists-find?,
  find?-true,
}
use mathlib.Core.Bool.{false≢true}
use workflowd.Kernel.Db.{JobRow, JobState, Db, ok, err, Codec, lease_error}
use workflowd.Kernel.Jobs.{
  ClaimAuthority, FailureInput, job_is, authorized, heartbeat, fail, retry, valid_failure,
}
use workflowd.Kernel.Jobs.Distinct.{Distinct, update-Distinct, find?-only}
use workflowd.Kernel.Claims.Rounds.{
  Leaves, Claims, taken, claim_candidate_cases, claim_matching_inv,
}
use workflowd.Kernel.Claims.{
  ClaimInput, JobClaim, exhausted, exhaust, takeable, take, quarantine, set_jobs, to_claim,
  claim_candidate, claim_matching,
}

-- The row holds the lease of the claim, on an attempt that it has.
abbrev pub Holds : JobClaim → JobRow → Type 0
Holds c j =
    (j.state ≡ JobState.leased)
    × (j.lease
        ≡ some (record {
          worker_id = c.worker_id;
          claim_token = c.claim_token;
          lease_until = c.lease_until;
        }))
    × (j.attempt ≡ c.attempt)
    × (c.attempt ≤ j.max_attempts)

abbrev pub Held : Db → JobClaim → Type 0
Held db c = All (λ j. job_is c.job_id j ≡ true → Holds c j) db.jobs

abbrev pub Keyed : Db → Type 0
Keyed db = Distinct db.jobs

module _ (k : Codec) (uuid : String → String) (message : JobRow → String) (remote : Bool)
    (i : ClaimInput) where
  taken-Keyed : (id : String) (db : Db) → Keyed db → Distinct (taken k uuid message remote i id db)
  taken-Keyed id db d =
      update-Distinct (takeable k remote i.now db.dispatches id) (take i (uuid id)) (λ j. refl)
        db.jobs d

  taken-Held :
      (id : String) (db : Db) (j : JobRow)
      → Keyed db
      → find? (takeable k remote i.now db.dispatches id) db.jobs ≡ some j
      → Held
          (set_jobs (taken k uuid message remote i id db) db)
          (to_claim i (uuid id) (take i (uuid id) j))
  taken-Held id db j d e =
      let t : takeable k remote i.now db.dispatches id j ≡ true = find?-true _ db.jobs j e in
      let key : j.job_id ≡ id = ground (arith, eq_iff j.job_id id) in
      All-update (λ x. job_is id x ≡ true → x ≡ j) _ (takeable k remote i.now db.dispatches id)
        (take i (uuid id))
        (λ x hit only mine.
          let same : x ≡ j = only (subst (λ n. job_is n x ≡ true) key mine) in
          (refl, refl, ap (λ y. suc y.attempt) same, ground (arith, ap (λ y. y.attempt) same)))
        (λ x miss only mine.
          let same : x ≡ j = only (subst (λ n. job_is n x ≡ true) key mine) in
          absurd (false≢true (sym miss ∙ ap (takeable k remote i.now db.dispatches id) same ∙ t)))
        db.jobs
        (find?-only id (takeable k remote i.now db.dispatches id) (λ x h. ground arith) db.jobs j d
          e)

  claim_candidate-Held :
      (id : String) (db : Db)
      → Keyed db
      → Leaves Keyed Held (claim_candidate k uuid message remote i id db)
  claim_candidate-Held id db d =
      claim_candidate_cases k uuid message remote i (Leaves Keyed Held) id db
        (λ e. update-Distinct (exhausted i.now id) (exhaust i.now) (λ j. refl) db.jobs d) d
        (λ j f. (taken-Keyed id db d, taken-Held id db j d f))
        (λ j f.
          update-Distinct (job_is id) (quarantine i.now (message (take i (uuid id) j))) (λ x. refl)
            (taken k uuid message remote i id db) (taken-Keyed id db d))

  -- While the job ids are distinct they stay so, and the row of a claimed job is leased to the
  -- claim: with its worker, token and expiry, on an attempt within the job's maximum.
  pub claim_matching-Held :
      (db : Db) → Keyed db → Claims Keyed Held db (claim_matching k uuid message remote i db)
  claim_matching-Held db d =
      claim_matching_inv k uuid message remote i Keyed Held claim_candidate-Held db d

-- No authority with another token than the claim's is good for the job.
unauthorized :
    (c : JobClaim) (a : ClaimAuthority) (db : Db)
    → Held db c
    → a.job_id ≡ c.job_id
    → a.claim_token ≢ c.claim_token
    → exists (authorized a) db.jobs ≡ false
unauthorized c a db h same other = exists-none (authorized a) db.jobs (
    All-map _ _
      (λ j held. ground (
        arith,
        eq_iff j.job_id c.job_id,
        eq_iff c.claim_token a.claim_token,
        eq_iff j.job_id a.job_id,
      ))
      db.jobs h)

unfound :
    (a : ClaimAuthority) (jobs : List JobRow)
    → exists (authorized a) jobs ≡ false
    → find? (authorized a) jobs ≡ none
unfound a jobs e = ground (arith, exists-find? (authorized a) jobs)

-- Where the job ids are distinct, a claim fences the earlier ones: once a job is claimed anew, an
-- authority with any other token can neither extend it by a positive duration, nor fail or retry it
-- with a valid failure; each is refused with the lease error.
pub claim_fences :
    (k : Codec) (uuid : String → String) (message : JobRow → String) (remote : Bool)
    (i : ClaimInput) (db db' : Db) (c : JobClaim) (f : FailureInput) (duration run_at : ℕ)
    → Keyed db
    → claim_matching k uuid message remote i db ≡ ok db' (some c)
    → f.authority.job_id ≡ c.job_id
    → f.authority.claim_token ≢ c.claim_token
    → 0 < duration
    → valid_failure f ≡ true
    → (heartbeat f.authority duration db' ≡ err lease_error)
      × (fail f db' ≡ err lease_error)
      × (retry f run_at db' ≡ err lease_error)
unfolding heartbeat fail retry
claim_fences k uuid message remote i db db' c f duration run_at d e same other positive valid =
    let held = subst (Claims Keyed Held db) e (claim_matching-Held k uuid message remote i db d) in
    let no_row = unauthorized c f.authority db' held.1 same other in
    let none_found = unfound f.authority db'.jobs no_row in
    (ground arith, ground arith, ground arith)
