-- ===== src/Kernel/Claims/Tables.antt =====
-- Claiming leaves the wait tables alone.
use workflowd.Base.{String, Bool, ◌≡◌}
use workflowd.Kernel.Db.{Db, JobRow, Codec}
use workflowd.Kernel.Invariant.{Waiting, waiting}
use workflowd.Kernel.Claims.Rounds.{Leaves, Claims, claim_candidate_cases, claim_matching_inv}
use workflowd.Kernel.Claims.{ClaimInput, claim_candidate, claim_matching}

module _ (k : Codec) (uuid : String → String) (message : JobRow → String) (remote : Bool)
    (i : ClaimInput) (w : Waiting) where
  abbrev Same : Db → Type 0
  Same db = waiting db ≡ w

  round :
      (id : String) (db : Db)
      → Same db
      → Leaves Same (λ _ _. Unit {0}) (claim_candidate k uuid message remote i id db)
  round id db s =
      claim_candidate_cases k uuid message remote i (Leaves Same (λ _ _. Unit {0})) id db (λ e. s) s
        (λ j f. (s, tt)) (λ j f. s)

  pub claim_matching_tables :
      (db : Db)
      → Same db
      → Claims Same (λ _ _. Unit {0}) db (claim_matching k uuid message remote i db)
  claim_matching_tables db s =
      claim_matching_inv k uuid message remote i Same (λ _ _. Unit {0}) round db s
