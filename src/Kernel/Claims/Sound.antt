-- ===== src/Kernel/Claims/Sound.antt =====
-- Claiming keeps the rows of src/kernel/job-store.ts sound: no job is attempted too often.
use workflowd.Base.{String, Bool, arith, All}
use workflowd.Kernel.Db.{JobRow, Db, Codec}
use workflowd.Kernel.Jobs.{job_is}
use workflowd.Kernel.Jobs.Sound.{IsSound, Sound, update-Sound}
use workflowd.Kernel.Claims.Rounds.{
  Leaves, Claims, taken, claim_candidate_cases, claim_matching_inv,
}
use workflowd.Kernel.Claims.{
  ClaimInput, exhausted, exhaust, takeable, take, quarantine, set_jobs, claim_candidate,
  claim_matching,
}

module _ (k : Codec) (uuid : String → String) (message : JobRow → String) (remote : Bool)
    (i : ClaimInput) where
  taken-Sound :
      (id : String) (db : Db) → Sound db → All IsSound (taken k uuid message remote i id db)
  taken-Sound id db s =
      update-Sound db s (takeable k remote i.now db.dispatches id) (take i (uuid id))
        (λ j h v. ground arith)

  claim_candidate-Sound :
      (id : String) (db : Db)
      → Sound db
      → Leaves Sound (λ _ _. Unit {0}) (claim_candidate k uuid message remote i id db)
  claim_candidate-Sound id db s =
      claim_candidate_cases k uuid message remote i (Leaves Sound (λ _ _. Unit {0})) id db
        (λ e. update-Sound db s (exhausted i.now id) (exhaust i.now) (λ j h v. ground arith)) s
        (λ j f. (taken-Sound id db s, tt))
        (λ j f.
          update-Sound (set_jobs (taken k uuid message remote i id db) db) (taken-Sound id db s)
            (job_is id) (quarantine i.now (message (take i (uuid id) j))) (λ j h v. ground arith))

  pub claim_matching-Sound :
      (db : Db)
      → Sound db
      → Claims Sound (λ _ _. Unit {0}) db (claim_matching k uuid message remote i db)
  claim_matching-Sound db s =
      claim_matching_inv k uuid message remote i Sound (λ _ _. Unit {0}) claim_candidate-Sound db s
