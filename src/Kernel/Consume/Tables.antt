-- ===== src/Kernel/Consume/Tables.antt =====
-- `consumeDelivery` leaves the jobs alone.
use workflowd.Base.{◌≡◌, arith}
use workflowd.Kernel.Db.{Db, after}
use workflowd.Kernel.Consume.{ConsumeDeliveryInput, with_consumed, refused, consume_delivery}

pub consume_delivery_jobs :
    (i : ConsumeDeliveryInput) (db : Db) → (after db (consume_delivery i db)).jobs ≡ db.jobs
unfolding consume_delivery refused with_consumed
consume_delivery_jobs i db = ground arith
