-- ===== src/Kernel/Waits.antt =====
-- src/kernel/event-store.ts, `registerWait`.
pub mod Tables
pub mod Wakeup
use workflowd.Base.{
  ℕ, suc, String, Bool, true, false, not, ◌&&◌, ◌||◌, Option, none, some, List, [], ◌∷◌, ◌++◌, map,
  if◌then◌else◌, ltb, leb, ◌==◌, str_eq, select, find?, exists, update, order_by, before_text,
}
use workflowd.Kernel.Db.{
  InstanceRow, EventCondition, EventRow, WaitRow, WaitState, DeliveryRow, DeliveryState, Db, Error,
  input_error, conflict, data_error, Outcome, ok, err, Codec, bounded_text, bounded_payload,
  max_identifier_bytes, max_type_bytes, max_source_bytes, same_condition, max_sequence, instance_is,
  wait_is, delivery_is, is_pending, is_matched, is_consumed, delivery_ready, delivery_consumed,
}
use workflowd.Kernel.Deliveries.{
  Status, fresh, duplicate, identifier, valid_condition, to_delivery, WaitEventDelivery,
  new_delivery, insert_delivery, insert_deliveries, satisfies,
}
use workflowd.Kernel.Events.{match_wait}

pub record RegisterWaitInput : Type 0 where
  pub instance_id : String
  pub wait_id : String
  pub condition : EventCondition
  pub registered_at : ℕ

valid_wait : RegisterWaitInput → Bool
valid_wait i = identifier i.instance_id && identifier i.wait_id && valid_condition i.condition

pub record RegisterWaitResult : Type 0 where
  pub status : Status
  pub after_sequence : ℕ
  pub registered_at : ℕ
  pub deliveries : List WaitEventDelivery

-- The unique index `kernel_waits_active` admits one of these to an instance.
abbrev pub is_active : WaitRow → Bool
is_active wait = is_pending wait.state || is_matched wait.state

abbrev pub active_of : String → WaitRow → Bool
active_of id wait = str_eq wait.instance_id id && is_active wait

abbrev pub new_wait : RegisterWaitInput → ℕ → WaitRow
new_wait i cursor = record {
  instance_id = i.instance_id;
  wait_id = i.wait_id;
  condition = i.condition;
  after_sequence = cursor;
  state = WaitState.pending;
  registered_at = i.registered_at;
}

-- `ORDER BY sequence LIMIT 1`.
pub first_event : WaitRow → List EventRow → Option EventRow
first_event wait events =
    find? (satisfies wait) (order_by (λ a b. ltb a.sequence b.sequence) events)

-- The writes of a fresh wait that an event on record already satisfies.
pub match_stored : WaitRow → EventRow → Db → Db
match_stored wait event db = record db {
  deliveries = insert_delivery (new_delivery event.sequence event.recorded_at wait) db.deliveries;
  waits =
      update (λ w. wait_is wait.instance_id wait.wait_id w && is_pending w.state) match_wait
        db.waits;
}

-- The result of a registration, once the ready deliveries of the wait decode.
wait_result : Codec → Status → RegisterWaitInput → ℕ → ℕ → Db → Outcome RegisterWaitResult
wait_result k status i after_sequence registered_at db =
    let rows =
      select (λ d. delivery_is i.instance_id i.wait_id d && delivery_ready d.state) db.deliveries in
    if exists (λ d. not (k.delivery_decodes d)) rows
    then err (data_error "delivery")
    else ok db (record {
      status = status;
      after_sequence = after_sequence;
      registered_at = registered_at;
      deliveries = map to_delivery rows;
    })

-- What follows the insertion of `wait`.
fresh_wait : Codec → RegisterWaitInput → WaitRow → Db → Outcome RegisterWaitResult
unfolding wait_result match_stored first_event
fresh_wait k i wait db =
    if not (k.wait_decodes wait)
    then err (data_error "wait")
    else elim (first_event wait db.events) [
      | none ↦ wait_result k fresh i wait.after_sequence wait.registered_at db
      | some event ↦
          if not (k.event_decodes event)
          then err (data_error "event")
          else wait_result k fresh i wait.after_sequence wait.registered_at
              (match_stored wait event db)
    ]

-- The wait was there before: the same condition is a duplicate, another one a conflict.
stored_wait : Codec → RegisterWaitInput → WaitRow → Db → Outcome RegisterWaitResult
unfolding wait_result
stored_wait k i wait db =
    if not (k.wait_decodes wait)
    then err (data_error "wait")
    else (if same_condition wait.condition i.condition
        then wait_result k duplicate i wait.after_sequence wait.registered_at db
        else err (conflict "wait"))

-- Nothing was inserted and no such wait is stored: the instance is missing, or has an active wait.
refused_wait : Codec → Option InstanceRow → Outcome RegisterWaitResult
refused_wait k none = err (data_error "instance")
refused_wait k (some row) =
    if k.instance_decodes row then err (conflict "wait") else err (data_error "instance")

-- The `INSERT … SELECT … FROM kernel_workflow_instances`, on a key that is free.
insert_wait : Codec → RegisterWaitInput → Db → Option InstanceRow → Outcome RegisterWaitResult
unfolding refused_wait fresh_wait
insert_wait k i db none = refused_wait k none
insert_wait k i db (some instance_row) =
    if exists (active_of i.instance_id) db.waits
    then refused_wait k (some instance_row)
    else let wait = new_wait i instance_row.event_cursor in
      fresh_wait k i wait (record db { waits = db.waits ++ wait ∷ [] })

unfoldable pub register_wait : Codec → RegisterWaitInput → Db → Outcome RegisterWaitResult
unfolding valid_wait stored_wait insert_wait
register_wait k i db =
    if valid_wait i
    then elim (find? (wait_is i.instance_id i.wait_id) db.waits) [
      | none ↦ insert_wait k i db (find? (instance_is i.instance_id) db.instances)
      | some wait ↦ stored_wait k i wait db
    ]
    else err input_error
