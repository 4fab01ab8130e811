-- ===== src/Kernel/Consume/Once.antt =====
-- `consumeDelivery` of src/kernel/event-store.ts on a delivery that is ready, and after it.
use workflowd.Base.{
  ℕ, ◌<◌, true, false, some, ◌≡◌, refl, arith, find?, exists, if◌then◌else◌, ◌==◌, find?-true,
  find?-update_hit, exists-find?_hit, exists_all_false, exists-update_self,
}
use workflowd.Kernel.Db.{
  InstanceRow, WaitRow, WaitState, DeliveryRow, DeliveryState, Db, conflict, ok, err, instance_is,
  wait_is, delivery_is,
}
use workflowd.Kernel.Deliveries.{fresh, duplicate}
use workflowd.Kernel.Consume.{
  ConsumeDeliveryInput, valid_consume, ready_for, matched_for, may_advance, set_cursor, consume_row,
  consume_wait, with_consumed, refused, consume_delivery,
}

-- The delivery `d` of the wait `w` waits to be consumed at the cursor of the instance `row`.
pub record IsDeliverable (i : ConsumeDeliveryInput) (db : Db) (row : InstanceRow) (w : WaitRow)
    (d : DeliveryRow) : Type 0 where
  pub instance : find? (instance_is i.instance_id) db.instances ≡ some row
  pub cursor : row.event_cursor ≡ i.expected_cursor
  pub later : i.expected_cursor < i.event_sequence
  pub wait : find? (wait_is i.instance_id i.wait_id) db.waits ≡ some w
  pub matched : w.state ≡ WaitState.matched
  pub delivery : find? (delivery_is i.instance_id i.wait_id) db.deliveries ≡ some d
  pub sequence : d.event_sequence ≡ i.event_sequence
  pub ready : d.state ≡ DeliveryState.ready

module _ (i : ConsumeDeliveryInput) (db : Db) (row : InstanceRow) (w : WaitRow) (d : DeliveryRow)
    (h : IsDeliverable i db row w d) where
  pub delivery_ready_now : ready_for i d ≡ true
  delivery_ready_now =
      let key = find?-true (delivery_is i.instance_id i.wait_id) db.deliveries d h.delivery in
      let sequence = h.sequence in let ready = h.ready in ground arith

  pub wait_matched_now : matched_for i w ≡ true
  wait_matched_now =
      let key = find?-true (wait_is i.instance_id i.wait_id) db.waits w h.wait in
      let matched = h.matched in ground arith

  pub ready_exists : exists (ready_for i) db.deliveries ≡ true
  ready_exists =
      exists-find?_hit (delivery_is i.instance_id i.wait_id) (ready_for i) db.deliveries d
        h.delivery delivery_ready_now

  pub matched_exists : exists (matched_for i) db.waits ≡ true
  matched_exists =
      exists-find?_hit (wait_is i.instance_id i.wait_id) (matched_for i) db.waits w h.wait
        wait_matched_now

  cursor_moves : may_advance i db row ≡ true
  cursor_moves =
      let key = find?-true (instance_is i.instance_id) db.instances row h.instance in
      let cursor = h.cursor in let later = h.later in ground (arith, ready_exists, matched_exists)

  consumes :
      valid_consume i ≡ true
      → consume_delivery i db
        ≡ ok (with_consumed i db) (record { status = fresh; event_cursor = i.event_sequence })
  unfolding consume_delivery
  consumes valid = rw (valid) (
      rw
        (exists-find?_hit (instance_is i.instance_id) (may_advance i db) db.instances row h.instance
          cursor_moves)
        refl)

  row_after :
      find? (instance_is i.instance_id) (with_consumed i db).instances
      ≡ some (set_cursor i.event_sequence row)
  unfolding with_consumed
  row_after =
      find?-update_hit (instance_is i.instance_id) (may_advance i db) (set_cursor i.event_sequence)
        (λ a. refl) db.instances row h.instance cursor_moves

  wait_after :
      find? (wait_is i.instance_id i.wait_id) (with_consumed i db).waits ≡ some (consume_wait w)
  unfolding with_consumed
  wait_after =
      find?-update_hit (wait_is i.instance_id i.wait_id) (matched_for i) consume_wait (λ a. refl)
        db.waits w h.wait wait_matched_now

  delivery_after :
      find? (delivery_is i.instance_id i.wait_id) (with_consumed i db).deliveries
      ≡ some (consume_row d)
  unfolding with_consumed
  delivery_after =
      find?-update_hit (delivery_is i.instance_id i.wait_id) (ready_for i) consume_row (λ a. refl)
        db.deliveries d h.delivery delivery_ready_now

  not_ready_again : exists (ready_for i) (with_consumed i db).deliveries ≡ false
  unfolding with_consumed
  not_ready_again = exists-update_self (ready_for i) consume_row (λ d h. ground arith) db.deliveries

  not_advancing_again :
      (j : ConsumeDeliveryInput)
      → exists (ready_for j) (with_consumed i db).deliveries ≡ false
      → exists (may_advance j (with_consumed i db)) (with_consumed i db).instances ≡ false
  not_advancing_again j gone =
      exists_all_false _ (λ row. ground (arith, gone)) (with_consumed i db).instances

  -- A ready delivery at the cursor of its instance is consumed, and once: the same delivery again,
  -- whatever cursor the call expects, answers duplicate with the advanced cursor where that is the
  -- sequence after which the wait was registered, and is a conflict otherwise; the tables stay.
  pub consume_once :
      (cursor : ℕ)
      → valid_consume i ≡ true
      → (consume_delivery i db
          ≡ ok (with_consumed i db) (record { status = fresh; event_cursor = i.event_sequence }))
        × (consume_delivery (record i { expected_cursor = cursor }) (with_consumed i db) ≡ (
            if w.after_sequence == cursor
            then ok
                (with_consumed i db)
                (record { status = duplicate; event_cursor = i.event_sequence })
            else err (conflict "wait")))
  unfolding consume_delivery refused valid_consume
  consume_once cursor valid = (
    consumes valid,
    (let sequence = h.sequence in
        ground (
          arith,
          not_advancing_again (record i { expected_cursor = cursor }) not_ready_again,
          row_after,
          wait_after,
          delivery_after,
        )),
  )
