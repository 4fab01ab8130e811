-- ===== src/Kernel/Events/Tables.antt =====
-- `recordEvent` leaves the jobs alone.
use workflowd.Base.{◌≡◌, arith}
use workflowd.Kernel.Db.{Db, Codec, after}
use workflowd.Kernel.Events.{
  RecordEventInput, event_deliveries, with_event, stored_event, record_event,
}

pub record_event_jobs :
    (k : Codec) (i : RecordEventInput) (db : Db) → (after db (record_event k i db)).jobs ≡ db.jobs
unfolding record_event stored_event event_deliveries with_event
record_event_jobs k i db = ground arith
