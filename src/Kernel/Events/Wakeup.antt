-- ===== src/Kernel/Events/Wakeup.antt =====
-- `recordEvent` of src/kernel/event-store.ts loses no wake-up.
use workflowd.Base.{
  ℕ, true, false, ◌&&◌, List, [], ◌∷◌, map, ◌≡◌, refl, ◌∙◌, inr, arith, eq_iff, select, exists, All,
  All-map, All-update, All-zip, All-append, All-of, All-select, exists-update, exists_self,
}
use workflowd.Kernel.Db.{
  EventCondition, WaitRow, DeliveryRow, Db, Codec, after, same_condition, wait_is, is_pending,
}
use workflowd.Kernel.Deliveries.{new_delivery, insert_deliveries, delivers, satisfies}
use workflowd.Kernel.Deliveries.Cover.{
  Served, Served-insert_deliveries, insert_deliveries-delivers, All-insert_deliveries,
}
use workflowd.Kernel.Invariant.{NoLostWake, IsQuiet, IsUndelivered, IsReferenced}
use workflowd.Kernel.Events.{
  RecordEventInput, awaits, match_wait, next_sequence, new_event, with_event, event_deliveries,
  stored_event, record_event,
}

same_condition_symm : (a b : EventCondition) → same_condition a b ≡ same_condition b a
same_condition_symm a b = ground (
  arith,
  eq_iff a.type b.type,
  eq_iff b.type a.type,
  eq_iff a.key b.key,
  eq_iff b.key a.key,
  eq_iff a.correlation b.correlation,
  eq_iff b.correlation a.correlation,
)

wait_is_refl : (w : WaitRow) → wait_is w.instance_id w.wait_id w ≡ true
wait_is_refl w = ground (arith, eq_iff w.instance_id w.instance_id, eq_iff w.wait_id w.wait_id)

All-map-new :
    (sequence at : ℕ) (ws vs : List WaitRow)
    → All (λ w. exists (wait_is w.instance_id w.wait_id) ws ≡ true) vs
    → All (IsReferenced ws) (map (new_delivery sequence at) vs)
All-map-new sequence at ws [] h = tt
All-map-new sequence at ws (v ∷ vs) h = (h.0, All-map-new sequence at ws vs h.1)

module _ (i : RecordEventInput) (db : Db) (inv : NoLostWake db) where
  abbrev sequence : ℕ
  sequence = next_sequence db

  abbrev chosen : List WaitRow
  chosen = select (awaits i.condition sequence db.deliveries) db.waits

  abbrev delivered : List DeliveryRow
  delivered = insert_deliveries (map (new_delivery sequence i.recorded_at) chosen) db.deliveries

  -- What is known of a wait of the old table.
  abbrev Known : WaitRow → Type 0
  Known w =
      (awaits i.condition sequence db.deliveries w ≡ true
        → exists (delivers sequence w) delivered ≡ true)
      × (is_pending w.state ≡ true → Served sequence delivered w)
      × IsQuiet db.events w
      × IsUndelivered db.deliveries w

  known : All Known db.waits
  known =
      All-map _ Known
        (λ w k. (
          k.0,
          λ pending.
              Served-insert_deliveries sequence i.recorded_at w chosen db.deliveries
                (inr (k.1.1 pending)),
          k.1.0,
          k.1.1,
        ))
        db.waits
        (All-zip _ _ db.waits
          (insert_deliveries-delivers sequence i.recorded_at _ db.waits db.deliveries
            (All-of _ (λ w e. inr (ground arith)) db.waits))
          (All-zip _ _ db.waits inv.quiet inv.undelivered))

  -- An event that a wait is left without a delivery of does not satisfy it.
  unsatisfied :
      (w : WaitRow)
      → Known w
      → is_pending w.state ≡ true
      → (is_pending w.state && exists (delivers sequence w) delivered) ≡ false
      → satisfies w (new_event i sequence) ≡ false
  unsatisfied w k pending miss =
      ground (arith, k.0, k.3 pending, same_condition_symm w.condition i.condition)

  quiet : All (IsQuiet (with_event i db).events) (with_event i db).waits
  unfolding with_event
  quiet =
      All-update Known _ _ match_wait (λ w hit k pending. cc)
        (λ w miss k pending.
          All-append _ db.events (new_event i sequence ∷ []) (k.2 pending)
            (unsatisfied w k pending miss, tt))
        db.waits known

  undelivered : All (IsUndelivered (with_event i db).deliveries) (with_event i db).waits
  unfolding with_event
  undelivered =
      All-update Known _ _ match_wait (λ w hit k pending. cc)
        (λ w miss k pending. ground (arith, k.1 pending)) db.waits known

  same_keys :
      (d : DeliveryRow)
      → exists (wait_is d.instance_id d.wait_id) (with_event i db).waits
        ≡ exists (wait_is d.instance_id d.wait_id) db.waits
  unfolding with_event
  same_keys d = exists-update _ _ match_wait (λ w. refl) db.waits

  referenced : All (IsReferenced (with_event i db).waits) (with_event i db).deliveries
  unfolding with_event
  referenced =
      All-map _ _ (λ d e. same_keys d ∙ e) delivered
        (All-insert_deliveries (IsReferenced db.waits) _ db.deliveries
          (All-map-new sequence i.recorded_at db.waits chosen (
            All-select _ _ db.waits
              (exists_self (λ w. wait_is w.instance_id w.wait_id) wait_is_refl db.waits)))
          inv.referenced)

  pub with_event-NoLostWake : NoLostWake (with_event i db)
  with_event-NoLostWake = record {
    quiet = quiet;
    undelivered = undelivered;
    referenced = referenced;
  }

-- `recordEvent` keeps the invariant that no wake-up is lost, whatever it answers.
pub record_event-NoLostWake :
    (k : Codec) (i : RecordEventInput) (db : Db)
    → NoLostWake db
    → NoLostWake (after db (record_event k i db))
unfolding record_event stored_event event_deliveries
record_event-NoLostWake k i db inv = ground (arith, with_event-NoLostWake i db inv)
