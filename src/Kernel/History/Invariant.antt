-- ===== src/Kernel/History/Invariant.antt =====
-- What every history of the kernel tables keeps.
use workflowd.Base.{List, [], ◌∷◌, ◌≡◌, refl, sym, subst, All, arith}
use workflowd.Kernel.Db.{Db, Codec}
use workflowd.Kernel.Invariant.{NoLostWake, NoLostWake-same, waiting}
use workflowd.Kernel.Instances.Tables.{create_instance_tables}
use workflowd.Kernel.Events.Wakeup.{record_event-NoLostWake}
use workflowd.Kernel.Events.Tables.{record_event_jobs}
use workflowd.Kernel.Waits.Wakeup.{register_wait-NoLostWake}
use workflowd.Kernel.Waits.Tables.{register_wait_jobs}
use workflowd.Kernel.Consume.Wakeup.{consume_delivery-NoLostWake}
use workflowd.Kernel.Consume.Tables.{consume_delivery_jobs}
use workflowd.Kernel.Handoff.Once.{enqueue-Sound, enqueue-Distinct, enqueue-NoLostWake}
use workflowd.Kernel.Jobs.Sound.{IsSound, Sound, heartbeat-Sound, fail-Sound, retry-Sound}
use workflowd.Kernel.Jobs.Distinct.{Distinct}
use workflowd.Kernel.Jobs.Tables.{
  heartbeat_tables, fail_tables, retry_tables, heartbeat-Distinct, fail-Distinct, retry-Distinct,
}
use workflowd.Kernel.Claims.{claim_matching}
use workflowd.Kernel.Claims.Rounds.{Claims-after}
use workflowd.Kernel.Claims.Sound.{claim_matching-Sound}
use workflowd.Kernel.Claims.Fencing.{Keyed, Held, claim_matching-Held}
use workflowd.Kernel.Claims.Tables.{claim_matching_tables}
use workflowd.Kernel.Results.Once.{complete-Sound}
use workflowd.Kernel.Results.Tables.{complete_tables, complete-Distinct}
use workflowd.Kernel.History.{
  Call, creates, records, registers, consumes, enqueues, claims, heartbeats, fails, retries,
  completes, step, run, empty_db,
}

-- No wake-up is lost, no job is attempted too often or leased in another state, and no two jobs
-- share an id.
pub record Inv (db : Db) : Type 0 where
  pub awake : NoLostWake db
  pub sound : Sound db
  pub keyed : Keyed db

same_jobs : (db db' : Db) → db'.jobs ≡ db.jobs → NoLostWake db' → Inv db → Inv db'
same_jobs db db' e awake inv = record {
  awake = awake;
  sound = subst (All IsSound) (sym e) inv.sound;
  keyed = subst Distinct (sym e) inv.keyed;
}

-- Every operation keeps the invariant, whatever it answers.
pub step-Inv : (k : Codec) (db : Db) (c : Call) → Inv db → Inv (step k db c)
unfolding step
step-Inv k db (creates i) inv =
    let (ev, wt, dl, jb) = create_instance_tables k i db in
    same_jobs db _ jb (NoLostWake-same db _ (ground arith) inv.awake) inv
step-Inv k db (records i) inv =
    same_jobs db _ (record_event_jobs k i db) (record_event-NoLostWake k i db inv.awake) inv
step-Inv k db (registers i) inv =
    same_jobs db _ (register_wait_jobs k i db) (register_wait-NoLostWake k i db inv.awake) inv
step-Inv k db (consumes i) inv =
    same_jobs db _ (consume_delivery_jobs i db) (consume_delivery-NoLostWake i db inv.awake) inv
step-Inv k db (enqueues i) inv = record {
  awake = enqueue-NoLostWake k i db inv.awake;
  sound = enqueue-Sound k i db inv.sound;
  keyed = enqueue-Distinct k i db inv.keyed;
}
step-Inv k db (claims remote uuid message i) inv = record {
  awake =
      NoLostWake-same db _
        (Claims-after (λ d. waiting d ≡ waiting db) (λ _ _. Unit {0}) db
          (claim_matching k uuid message remote i db)
          (claim_matching_tables k uuid message remote i (waiting db) db refl))
        inv.awake;
  sound =
      Claims-after Sound (λ _ _. Unit {0}) db (claim_matching k uuid message remote i db)
        (claim_matching-Sound k uuid message remote i db inv.sound);
  keyed =
      Claims-after Keyed Held db (claim_matching k uuid message remote i db)
        (claim_matching-Held k uuid message remote i db inv.keyed);
}
step-Inv k db (heartbeats a duration) inv = record {
  awake = NoLostWake-same db _ (heartbeat_tables db a duration) inv.awake;
  sound = heartbeat-Sound db inv.sound a duration;
  keyed = heartbeat-Distinct db a duration inv.keyed;
}
step-Inv k db (fails i) inv = record {
  awake = NoLostWake-same db _ (fail_tables db i) inv.awake;
  sound = fail-Sound db inv.sound i;
  keyed = fail-Distinct db i inv.keyed;
}
step-Inv k db (retries i run_at) inv = record {
  awake = NoLostWake-same db _ (retry_tables db i run_at) inv.awake;
  sound = retry-Sound db inv.sound i run_at;
  keyed = retry-Distinct db i run_at inv.keyed;
}
step-Inv k db (completes i) inv = record {
  awake = NoLostWake-same db _ (complete_tables k i db) inv.awake;
  sound = complete-Sound k i db inv.sound;
  keyed = complete-Distinct k i db inv.keyed;
}

run-Inv : (k : Codec) (db : Db) (cs : List Call) → Inv db → Inv (run k db cs)
unfolding run
run-Inv k db [] inv = inv
run-Inv k db (c ∷ cs) inv = run-Inv k (step k db c) cs (step-Inv k db c inv)

-- After any history from empty tables, in whatever order events are recorded and waits
-- registered: no pending wait has an event on record that satisfies it, or a delivery; every
-- delivery belongs to a wait; a job has a lease exactly while it is leased, and at most as many
-- attempts as its maximum; and the job ids are distinct.
pub run-empty-Inv : (k : Codec) (cs : List Call) → Inv (run k empty_db cs)
unfolding empty_db
run-empty-Inv k cs = run-Inv k empty_db cs (record {
  awake = record { quiet = tt; undelivered = tt; referenced = tt };
  sound = tt;
  keyed = tt;
})
