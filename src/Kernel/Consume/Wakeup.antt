-- ===== src/Kernel/Consume/Wakeup.antt =====
-- `consumeDelivery` of src/kernel/event-store.ts and the waits that are to be woken.
use workflowd.Base.{◌≡◌, refl, ◌∙◌, arith, exists, All-update, exists-update}
use workflowd.Kernel.Db.{WaitRow, DeliveryRow, Db, after, wait_is}
use workflowd.Kernel.Deliveries.Cover.{has_delivery}
use workflowd.Kernel.Invariant.{NoLostWake, IsReferenced}
use workflowd.Kernel.Consume.{
  ConsumeDeliveryInput, consume_row, consume_wait, with_consumed, refused, consume_delivery,
}

module _ (i : ConsumeDeliveryInput) (db : Db) (inv : NoLostWake db) where
  same_deliveries :
      (w : WaitRow) → has_delivery w (with_consumed i db).deliveries ≡ has_delivery w db.deliveries
  unfolding with_consumed
  same_deliveries w = exists-update _ _ consume_row (λ d. refl) db.deliveries

  same_waits :
      (d : DeliveryRow)
      → exists (wait_is d.instance_id d.wait_id) (with_consumed i db).waits
        ≡ exists (wait_is d.instance_id d.wait_id) db.waits
  unfolding with_consumed
  same_waits d = exists-update _ _ consume_wait (λ w. refl) db.waits

  pub with_consumed-NoLostWake : NoLostWake (with_consumed i db)
  unfolding with_consumed
  with_consumed-NoLostWake = record {
    quiet =
        All-update _ _ _ consume_wait (λ w hit q pending. cc) (λ w miss q. q) db.waits inv.quiet;
    undelivered =
        All-update _ _ _ consume_wait (λ w hit u pending. cc)
          (λ w miss u pending. same_deliveries w ∙ u pending) db.waits inv.undelivered;
    referenced =
        All-update (IsReferenced db.waits) _ _ consume_row (λ d hit e. same_waits d ∙ e)
          (λ d miss e. same_waits d ∙ e) db.deliveries inv.referenced;
  }

-- `consumeDelivery` keeps the invariant that no wake-up is lost, whatever it answers.
pub consume_delivery-NoLostWake :
    (i : ConsumeDeliveryInput) (db : Db)
    → NoLostWake db
    → NoLostWake (after db (consume_delivery i db))
unfolding consume_delivery refused
consume_delivery-NoLostWake i db inv = ground (arith, with_consumed-NoLostWake i db inv)
