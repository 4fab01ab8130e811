-- ===== src/Kernel/Claims.antt =====
-- src/kernel/job-store.ts, `claimMatching` with `claimNext` and `claimRemote`. The candidates are
-- read once; the loop then claims the first that is not exhausted and whose row decodes. `uuid`
-- gives the token that `randomUUID` draws for a candidate.
pub mod Tables
pub mod Rounds
pub mod Sound
pub mod Fencing
use workflowd.Base.{
  ℕ, suc, ◌+◌, String, Bool, true, false, not, ◌&&◌, ◌||◌, Option, none, some, List, [], ◌∷◌, ◌++◌,
  map, if◌then◌else◌, ltb, leb, ◌==◌, str_eq, select, find?, exists, update, order_by, before_text,
}
use workflowd.Kernel.Db.{
  JobRow, JobState, Lease, Failure, FailureCategory, transient, permanent, DispatchRow,
  DispatchState, Db, Error, input_error, lease_error, conflict, data_error, Outcome, ok, err, Codec,
  bounded_text, bounded_payload, max_identifier_bytes,
}
use workflowd.Kernel.Deliveries.{identifier}
use workflowd.Kernel.Jobs.{job_is, is_leased, is_waiting, before_job}

pub record ClaimInput : Type 0 where
  pub worker_id : String
  pub now : ℕ
  pub lease_duration_ms : ℕ

pub record JobClaim : Type 0 where
  pub job_id : String
  pub instance_id : String
  pub input_version : ℕ
  pub input : String
  pub worker_id : String
  pub attempt : ℕ
  pub max_attempts : ℕ
  pub claim_token : String
  pub lease_until : ℕ

abbrev pub is_remote_kind : Option String → Bool
is_remote_kind none = false
is_remote_kind (some kind) = str_eq kind "remote_probe" || str_eq kind "claude_resume"

abbrev in_lane : Codec → Bool → JobRow → Bool
in_lane k true j = is_remote_kind (k.kind_of j.input_json)
in_lane k false j = not (is_remote_kind (k.kind_of j.input_json))

abbrev is_open_dispatch : DispatchState → Bool
is_open_dispatch DispatchState.prepared = true
is_open_dispatch DispatchState.publishing = true
is_open_dispatch DispatchState.published = true
is_open_dispatch _ = false

abbrev dispatched : List DispatchRow → JobRow → Bool
dispatched ds j =
    exists (λ d. str_eq d.job_id j.job_id && d.attempt == j.attempt && is_open_dispatch d.state) ds

abbrev pub lease_over : ℕ → Option Lease → Bool
lease_over now none = false
lease_over now (some l) = leb l.lease_until now

abbrev pub due : ℕ → JobRow → Bool
due now j =
    (is_waiting j.state && leb j.run_at now) || (is_leased j.state && lease_over now j.lease)

abbrev pub claimable : Codec → Bool → ℕ → List DispatchRow → JobRow → Bool
claimable k remote now ds j = due now j && in_lane k remote j && not (dispatched ds j)

-- The lease ran out on the last attempt.
abbrev pub exhausted : ℕ → String → JobRow → Bool
exhausted now id j =
    job_is id j && is_leased j.state && lease_over now j.lease && leb j.max_attempts j.attempt

abbrev exhaust : ℕ → JobRow → JobRow
exhaust now j = record j {
  state = JobState.failed;
  lease = none;
  failure = some (record {
    category = transient;
    version = 1;
    json = "{\"message\":\"lease expired after final attempt\"}";
  });
  updated_at = now;
}

abbrev pub takeable : Codec → Bool → ℕ → List DispatchRow → String → JobRow → Bool
takeable k remote now ds id j =
    job_is id j && ltb j.attempt j.max_attempts && claimable k remote now ds j

abbrev take : ClaimInput → String → JobRow → JobRow
take i token j = record j {
  state = JobState.leased;
  attempt = suc j.attempt;
  lease = some (record {
    worker_id = i.worker_id;
    claim_token = token;
    lease_until = i.now + i.lease_duration_ms;
  });
  updated_at = i.now;
}

-- `quarantine`; the message is the decoder's.
abbrev quarantine : ℕ → String → JobRow → JobRow
quarantine now message j = record j {
  state = JobState.data_error;
  lease = none;
  failure = some (record { category = FailureCategory.data_error; version = 1; json = message });
  updated_at = now;
}

abbrev pub to_claim : ClaimInput → String → JobRow → JobClaim
to_claim i token j = record {
  job_id = j.job_id;
  instance_id = j.instance_id;
  input_version = j.input_version;
  input = j.input_json;
  worker_id = i.worker_id;
  attempt = j.attempt;
  max_attempts = j.max_attempts;
  claim_token = token;
  lease_until = i.now + i.lease_duration_ms;
}

abbrev set_jobs : List JobRow → Db → Db
set_jobs jobs db = record db { jobs = jobs }

module _ (k : Codec) (uuid : String → String) (message : JobRow → String) (remote : Bool)
    (i : ClaimInput) where
  -- One round of the loop: the tables after it, and the claim if one was made.
  pub claim_candidate : String → Db → Db × Option JobClaim
  claim_candidate id db =
      if exists (exhausted i.now id) db.jobs
      then (set_jobs (update (exhausted i.now id) (exhaust i.now) db.jobs) db, none)
      else elim (find? (takeable k remote i.now db.dispatches id) db.jobs) [
        | none ↦ (db, none)
        | some j ↦
            let row = take i (uuid id) j in
            let jobs =
              update (takeable k remote i.now db.dispatches id) (take i (uuid id)) db.jobs in
            if k.job_decodes row
            then (set_jobs jobs db, some (to_claim i (uuid id) row))
            else (set_jobs (update (job_is id) (quarantine i.now (message row)) jobs) db, none)
      ]

  pub claim_candidates : List String → Db → Db × Option JobClaim
  claim_candidates [] db = (db, none)
  claim_candidates (id ∷ ids) db =
      let (db', claim) = claim_candidate id db in
      elim claim [ none ↦ claim_candidates ids db' | some c ↦ (db', some c) ]

  pub candidates : Db → List String
  candidates db =
      map (λ j. j.job_id)
        (order_by before_job (select (claimable k remote i.now db.dispatches) db.jobs))

  unfoldable pub claim_matching : Db → Outcome (Option JobClaim)
  unfolding claim_candidates claim_candidate candidates
  claim_matching db =
      if not (identifier i.worker_id) || not (ltb 0 i.lease_duration_ms)
      then err input_error
      else (let (db', claim) = claim_candidates (candidates db) db in ok db' claim)
