-- ===== src/Kernel/Jobs/Sound.antt =====
-- The lease and attempt discipline of the rows of src/kernel/job-store.ts, kept by the holder's
-- operations.
use workflowd.Base.{
  ℕ, ◌+◌, ◌≤◌, Bool, true, false, Option, none, some, ◌≡◌, arith, update, All, All-update,
}
use workflowd.Kernel.Db.{JobRow, JobState, Lease, Db, after}
use workflowd.Kernel.Jobs.{
  ClaimAuthority, FailureInput, is_leased, authorized, extend, heartbeat, fail, retry, retry_row,
  close, reschedule, failed_state, category_of,
}

abbrev pub has_lease : Option Lease → Bool
has_lease none = false
has_lease (some l) = true

-- A row holds a lease exactly while it is leased, and has made no more attempts than it may.
pub record IsSound (j : JobRow) : Type 0 where
  pub leased : has_lease j.lease ≡ is_leased j.state
  pub attempts : j.attempt ≤ j.max_attempts

abbrev pub Sound : Db → Type 0
Sound db = All IsSound db.jobs

module _ (db : Db) (s : Sound db) where
  -- An update that keeps each row sound.
  abbrev Kept : (p : JobRow → Bool) (f : JobRow → JobRow) → Type 0
  Kept p f = (j : JobRow) → p j ≡ true → IsSound j → IsSound (f j)

  pub update-Sound :
      (p : JobRow → Bool) (f : JobRow → JobRow) → Kept p f → All IsSound (update p f db.jobs)
  update-Sound p f h = All-update IsSound IsSound p f h (λ j m v. v) db.jobs s

  pub heartbeat-Sound :
      (a : ClaimAuthority) (duration : ℕ) → Sound (after db (heartbeat a duration db))
  unfolding heartbeat
  heartbeat-Sound a duration =
      ground
        (arith, update-Sound (authorized a) (extend a (a.now + duration)) (λ j h v. ground arith))

  pub fail-Sound : (i : FailureInput) → Sound (after db (fail i db))
  unfolding fail
  fail-Sound i = ground (
    arith,
    update-Sound (authorized i.authority)
        (close i (failed_state i.category) (category_of i.category)) (λ j h v. ground arith),
  )

  pub retry-Sound : (i : FailureInput) (run_at : ℕ) → Sound (after db (retry i run_at db))
  unfolding retry retry_row
  retry-Sound i run_at = ground (
    arith,
    update-Sound (authorized i.authority) (reschedule i JobState.failed run_at)
        (λ j h v. ground arith),
    update-Sound (authorized i.authority) (reschedule i JobState.retry_scheduled run_at)
        (λ j h v. ground arith),
  )
