-- ===== src/Kernel/Waits/Tables.antt =====
-- `registerWait` leaves the jobs alone.
use workflowd.Base.{◌≡◌, arith}
use workflowd.Kernel.Db.{Db, Codec, after}
use workflowd.Kernel.Waits.{
  RegisterWaitInput, match_stored, wait_result, fresh_wait, stored_wait, refused_wait, insert_wait,
  register_wait,
}

pub register_wait_jobs :
    (k : Codec) (i : RegisterWaitInput) (db : Db) → (after db (register_wait k i db)).jobs ≡ db.jobs
unfolding register_wait insert_wait refused_wait stored_wait fresh_wait wait_result match_stored
register_wait_jobs k i db = ground arith
