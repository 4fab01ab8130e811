-- ===== src/Kernel/Instances/Tables.antt =====
-- `createInstance` touches the instances alone.
use workflowd.Base.{◌≡◌, arith}
use workflowd.Kernel.Db.{Db, Codec, after}
use workflowd.Kernel.Instances.{WorkflowInstanceInput, stored_instance, create_instance}

module _ (k : Codec) (i : WorkflowInstanceInput) (db : Db) where
  abbrev db' : Db
  db' = after db (create_instance k i db)

  pub create_instance_tables :
      (db'.events ≡ db.events)
      × (db'.waits ≡ db.waits)
      × (db'.deliveries ≡ db.deliveries)
      × (db'.jobs ≡ db.jobs)
  unfolding create_instance stored_instance
  create_instance_tables = ground arith
