-- ===== src/Kernel/Results/Tables.antt =====
-- `complete` leaves the wait tables alone, and keeps the keys of the jobs.
use workflowd.Base.{◌≡◌, refl, arith}
use workflowd.Kernel.Db.{Db, Codec, after}
use workflowd.Kernel.Invariant.{waiting}
use workflowd.Kernel.Jobs.{authorized}
use workflowd.Kernel.Jobs.Distinct.{Distinct, update-Distinct}
use workflowd.Kernel.Results.{CompleteInput, succeed, stored_result, with_result, complete}

module _ (k : Codec) (i : CompleteInput) (db : Db) where
  pub complete_tables : waiting (after db (complete k i db)) ≡ waiting db
  unfolding complete stored_result with_result
  complete_tables = ground arith

  pub complete-Distinct : Distinct db.jobs → Distinct (after db (complete k i db)).jobs
  unfolding complete stored_result with_result
  complete-Distinct d = ground (
    arith,
    update-Distinct (authorized i.authority) (succeed i.authority.now) (λ j. refl) db.jobs d,
  )
