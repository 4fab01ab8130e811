-- ===== src/Kernel/Jobs/Tables.antt =====
-- `heartbeat`, `fail` and `retry` touch the jobs alone, and keep their keys.
use workflowd.Base.{ℕ, ◌+◌, ◌≡◌, refl, arith}
use workflowd.Kernel.Db.{Db, JobState, after}
use workflowd.Kernel.Invariant.{waiting}
use workflowd.Kernel.Jobs.Distinct.{Distinct, update-Distinct}
use workflowd.Kernel.Jobs.{
  ClaimAuthority, FailureInput, authorized, extend, close, reschedule, failed_state, category_of,
  heartbeat, fail, retry, retry_row,
}

module _ (db : Db) where
  pub heartbeat_tables :
      (a : ClaimAuthority) (duration : ℕ)
      → waiting (after db (heartbeat a duration db)) ≡ waiting db
  unfolding heartbeat
  heartbeat_tables a duration = ground arith

  pub fail_tables : (i : FailureInput) → waiting (after db (fail i db)) ≡ waiting db
  unfolding fail
  fail_tables i = ground arith

  pub retry_tables :
      (i : FailureInput) (run_at : ℕ) → waiting (after db (retry i run_at db)) ≡ waiting db
  unfolding retry retry_row
  retry_tables i run_at = ground arith

  pub heartbeat-Distinct :
      (a : ClaimAuthority) (duration : ℕ)
      → Distinct db.jobs
      → Distinct (after db (heartbeat a duration db)).jobs
  unfolding heartbeat
  heartbeat-Distinct a duration d =
      ground
        (arith, update-Distinct (authorized a) (extend a (a.now + duration)) (λ j. refl) db.jobs d)

  pub fail-Distinct : (i : FailureInput) → Distinct db.jobs → Distinct (after db (fail i db)).jobs
  unfolding fail
  fail-Distinct i d = ground (
    arith,
    update-Distinct (authorized i.authority)
        (close i (failed_state i.category) (category_of i.category)) (λ j. refl) db.jobs d,
  )

  pub retry-Distinct :
      (i : FailureInput) (run_at : ℕ)
      → Distinct db.jobs
      → Distinct (after db (retry i run_at db)).jobs
  unfolding retry retry_row
  retry-Distinct i run_at d = ground (
    arith,
    update-Distinct (authorized i.authority) (reschedule i JobState.failed run_at) (λ j. refl)
        db.jobs d,
    update-Distinct (authorized i.authority) (reschedule i JobState.retry_scheduled run_at)
        (λ j. refl) db.jobs d,
  )
