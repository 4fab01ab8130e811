-- ===== src/Kernel/Handoff/Once.antt =====
-- `enqueueFromDelivery` of src/kernel/job-store.ts: the job of a delivery, and the invariants of the
-- tables.
use workflowd.Base.{
  true, false, some, [], ◌∷◌, ◌≡◌, refl, ap, inl, inr, arith, eq_iff, find?, exists, All-append,
  find?-append_none, find?-true, find?-update_hit, exists-find?_hit, none, exists-update_self,
  exists-find?, Option-cases,
}
use workflowd.Kernel.Db.{
  Db, ok, err, Codec, conflict, after, InstanceRow, WaitRow, WaitState, DeliveryRow, DeliveryState,
  instance_is, wait_is, delivery_is,
}
use workflowd.Kernel.Deliveries.{fresh, duplicate}
use workflowd.Kernel.Consume.{
  ready_for, matched_for, set_cursor, consume_row, consume_wait, with_consumed,
}
use workflowd.Kernel.Consume.Once.{
  IsDeliverable, ready_exists, matched_exists, wait_matched_now, delivery_ready_now,
}
use workflowd.Kernel.Consume.Wakeup.{with_consumed-NoLostWake}
use workflowd.Kernel.Invariant.{NoLostWake}
use workflowd.Kernel.Jobs.{job_is}
use workflowd.Kernel.Jobs.Sound.{IsSound, Sound}
use workflowd.Kernel.Jobs.Distinct.{Distinct, append-Distinct}
use workflowd.Kernel.Handoff.{
  EnqueueJobInput, EnqueueResult, valid_enqueue, new_job, same_job, at_cursor, enqueueable,
  with_job, enqueue_from_delivery,
}

module _ (k : Codec) (i : EnqueueJobInput) (db : Db) where
  pub enqueue-Sound : Sound db → Sound (after db (enqueue_from_delivery k i db))
  unfolding enqueue_from_delivery with_job
  enqueue-Sound s = ground (
    arith,
    All-append IsSound db.jobs (new_job i ∷ []) s
        (record { leased = refl; attempts = omega arith }, tt),
  )

  pub enqueue-Distinct : Distinct db.jobs → Distinct (after db (enqueue_from_delivery k i db)).jobs
  unfolding enqueue_from_delivery with_job
  enqueue-Distinct d = elim (Option-cases (find? (job_is i.job_id) db.jobs)) [
    | inl free ↦ ground (
      arith,
      append-Distinct db.jobs (new_job i) (ground (arith, exists-find? (job_is i.job_id) db.jobs))
          d,
    )
    | inr (j, e) ↦ ground arith
  ]

  with_job-NoLostWake : NoLostWake db → NoLostWake (with_job i db)
  unfolding with_job with_consumed
  with_job-NoLostWake inv =
      let w = with_consumed-NoLostWake i.delivery db inv in
      record { quiet = w.quiet; undelivered = w.undelivered; referenced = w.referenced }

  pub enqueue-NoLostWake : NoLostWake db → NoLostWake (after db (enqueue_from_delivery k i db))
  unfolding enqueue_from_delivery
  enqueue-NoLostWake inv = ground (arith, with_job-NoLostWake inv)

-- A delivery makes one job: after it was enqueued, a valid request for the same delivery at the same
-- expected cursor, under any job id that is not stored, is refused as a conflict.
pub enqueue_once :
    (k : Codec) (i j : EnqueueJobInput) (db db' : Db) (r : EnqueueResult)
    → enqueue_from_delivery k i db ≡ ok db' r
    → r.status ≡ fresh
    → j.delivery ≡ i.delivery
    → valid_enqueue j ≡ true
    → exists (job_is j.job_id) db'.jobs ≡ false
    → enqueue_from_delivery k j db' ≡ err (conflict "delivery")
unfolding enqueue_from_delivery with_job
enqueue_once k i j db db' r e f same valid free =
    let spent : exists (ready_for j.delivery) db'.deliveries ≡ false = ground (
      arith,
      ap (λ d. exists (ready_for d) db'.deliveries) same,
      exists-update_self (ready_for i.delivery) consume_row (λ d h. ground arith) db.deliveries,
    ) in
    ground (arith, spent, exists-find? (job_is j.job_id) db'.jobs)

module _ (k : Codec) (i : EnqueueJobInput) (db : Db) (row : InstanceRow) (w : WaitRow)
    (d : DeliveryRow) (h : IsDeliverable i.delivery db row w d)
    (free : find? (job_is i.job_id) db.jobs ≡ none) (valid : valid_enqueue i ≡ true) where
  instance_waits : at_cursor i.delivery row ≡ true
  instance_waits =
      let key = find?-true (instance_is i.delivery.instance_id) db.instances row h.instance in
      let cursor = h.cursor in ground arith

  may_enqueue : enqueueable i.delivery db ≡ true
  may_enqueue = ground (
    arith,
    exists-find?_hit (instance_is i.delivery.instance_id) (at_cursor i.delivery) db.instances row
        h.instance instance_waits,
    ready_exists i.delivery db row w d h,
    matched_exists i.delivery db row w d h,
  )

  job_stored : find? (job_is i.job_id) (with_job i db).jobs ≡ some (new_job i)
  unfolding with_job
  job_stored =
      find?-append_none (job_is i.job_id) db.jobs (new_job i) free
        (ground (arith, eq_iff i.job_id i.job_id))

  same_job_self : same_job i (new_job i) ≡ true
  same_job_self = ground (
    arith,
    eq_iff i.delivery.instance_id i.delivery.instance_id,
    eq_iff i.delivery.wait_id i.delivery.wait_id,
    eq_iff i.input i.input,
  )

  -- The handoff is one step: a valid request for a ready delivery at the cursor of its instance,
  -- under a job id that is free, stores the job, advances the cursor to the event, and consumes the
  -- wait and the delivery; where the stored job decodes, the same request again is a duplicate that
  -- changes nothing.
  pub enqueue_effect :
      k.job_decodes (new_job i) ≡ true
      → (enqueue_from_delivery k i db
          ≡ ok
              (with_job i db)
              (record { status = fresh; event_cursor = i.delivery.event_sequence }))
        × (find? (job_is i.job_id) (with_job i db).jobs ≡ some (new_job i))
        × (find? (instance_is i.delivery.instance_id) (with_job i db).instances
            ≡ some (record row { event_cursor = i.delivery.event_sequence }))
        × (find? (wait_is i.delivery.instance_id i.delivery.wait_id) (with_job i db).waits
            ≡ some (record w { state = WaitState.consumed }))
        × (find? (delivery_is i.delivery.instance_id i.delivery.wait_id) (with_job i db).deliveries
            ≡ some (record d { state = DeliveryState.consumed }))
        × (enqueue_from_delivery k i (with_job i db)
            ≡ ok
                (with_job i db)
                (record { status = duplicate; event_cursor = i.delivery.event_sequence }))
  unfolding enqueue_from_delivery with_job
  enqueue_effect decodes = (
    rw valid (rw free (rw may_enqueue refl)),
    job_stored,
    find?-update_hit (instance_is i.delivery.instance_id) (at_cursor i.delivery)
        (set_cursor i.delivery.event_sequence) (λ a. refl) db.instances row h.instance
        instance_waits,
    find?-update_hit (wait_is i.delivery.instance_id i.delivery.wait_id) (matched_for i.delivery)
        consume_wait (λ a. refl) db.waits w h.wait (wait_matched_now i.delivery db row w d h),
    find?-update_hit (delivery_is i.delivery.instance_id i.delivery.wait_id) (ready_for i.delivery)
        consume_row (λ a. refl) db.deliveries d h.delivery
        (delivery_ready_now i.delivery db row w d h),
    rw valid (rw job_stored (rw decodes (rw same_job_self refl))),
  )
