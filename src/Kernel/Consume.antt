-- ===== src/Kernel/Consume.antt =====
-- src/kernel/event-store.ts, `consumeDelivery` and `readReadyDeliveries`.
pub mod Tables
pub mod Wakeup
pub mod Once
use workflowd.Base.{
  ℕ, suc, String, Bool, true, false, not, ◌&&◌, ◌||◌, Option, none, some, List, [], ◌∷◌, ◌++◌, map,
  if◌then◌else◌, ltb, leb, ◌==◌, str_eq, select, find?, exists, update, order_by, before_text,
}
use workflowd.Kernel.Db.{
  InstanceRow, EventCondition, EventRow, WaitRow, WaitState, DeliveryRow, DeliveryState, Db, Error,
  input_error, conflict, data_error, Outcome, ok, err, Codec, bounded_text, bounded_payload,
  max_identifier_bytes, max_type_bytes, max_source_bytes, same_condition, max_sequence, instance_is,
  wait_is, delivery_is, is_pending, is_matched, is_consumed, delivery_ready, delivery_consumed,
}
use workflowd.Kernel.Deliveries.{
  Status, fresh, duplicate, identifier, to_delivery, WaitEventDelivery,
}

pub record ConsumeDeliveryInput : Type 0 where
  pub instance_id : String
  pub wait_id : String
  pub event_sequence : ℕ
  pub expected_cursor : ℕ

pub record ConsumeDeliveryResult : Type 0 where
  pub status : Status
  pub event_cursor : ℕ

unfoldable pub valid_consume : ConsumeDeliveryInput → Bool
valid_consume i = identifier i.instance_id && identifier i.wait_id && ltb 0 i.event_sequence

abbrev pub ready_for : ConsumeDeliveryInput → DeliveryRow → Bool
ready_for i d =
    delivery_is i.instance_id i.wait_id d
    && d.event_sequence == i.event_sequence
    && delivery_ready d.state

abbrev pub matched_for : ConsumeDeliveryInput → WaitRow → Bool
matched_for i w = wait_is i.instance_id i.wait_id w && is_matched w.state

-- The `WHERE` of the compare-and-set on the cursor.
abbrev pub may_advance : ConsumeDeliveryInput → Db → InstanceRow → Bool
may_advance i db row =
    instance_is i.instance_id row
    && row.event_cursor == i.expected_cursor
    && ltb row.event_cursor i.event_sequence
    && exists (ready_for i) db.deliveries
    && exists (matched_for i) db.waits

abbrev pub set_cursor : ℕ → InstanceRow → InstanceRow
set_cursor cursor row = record row { event_cursor = cursor }

abbrev pub consume_row : DeliveryRow → DeliveryRow
consume_row d = record d { state = DeliveryState.consumed }

abbrev pub consume_wait : WaitRow → WaitRow
consume_wait w = record w { state = WaitState.consumed }

unfoldable pub with_consumed : ConsumeDeliveryInput → Db → Db
with_consumed i db = record db {
  instances = update (may_advance i db) (set_cursor i.event_sequence) db.instances;
  deliveries = update (ready_for i) consume_row db.deliveries;
  waits = update (matched_for i) consume_wait db.waits;
}

-- The row of the join that a refused advance is explained by.
abbrev pub replays : ConsumeDeliveryInput → InstanceRow → WaitRow → DeliveryRow → Bool
replays i instance_row wait d =
    d.event_sequence == i.event_sequence
    && wait.after_sequence == i.expected_cursor
    && leb i.event_sequence instance_row.event_cursor
    && delivery_consumed d.state
    && is_consumed wait.state

unfoldable pub refused :
    ConsumeDeliveryInput
    → Db
    → Option InstanceRow
    → Option WaitRow
    → Option DeliveryRow
    → Outcome ConsumeDeliveryResult
refused i db (some row) (some wait) (some d) =
    if replays i row wait d
    then ok db (record { status = duplicate; event_cursor = row.event_cursor })
    else err (conflict "wait")
refused i db _ _ _ = err (data_error "delivery")

unfoldable pub consume_delivery : ConsumeDeliveryInput → Db → Outcome ConsumeDeliveryResult
unfolding valid_consume with_consumed refused
consume_delivery i db =
    if not (valid_consume i)
    then err input_error
    else (if exists (may_advance i db) db.instances
        then ok (with_consumed i db) (record { status = fresh; event_cursor = i.event_sequence })
        else refused i db (find? (instance_is i.instance_id) db.instances)
            (find? (wait_is i.instance_id i.wait_id) db.waits)
            (find? (delivery_is i.instance_id i.wait_id) db.deliveries))

-- `readReadyDeliveries`: each ready delivery of the instance with its event and its wait, which
-- has to be matched; a delivery whose event is missing drops out of the join.
pub record ReadyWaitEventDelivery : Type 0 where
  pub delivery : WaitEventDelivery
  pub event : EventRow

event_at : ℕ → EventRow → Bool
event_at sequence e = e.sequence == sequence

abbrev before_sequence : DeliveryRow → DeliveryRow → Bool
before_sequence a b =
    ltb a.event_sequence b.event_sequence
    || (a.event_sequence == b.event_sequence && before_text a.wait_id b.wait_id)

abbrev prepend :
    EventRow
    → DeliveryRow
    → Outcome (List ReadyWaitEventDelivery)
    → Outcome (List ReadyWaitEventDelivery)
prepend e d (ok db' rows) = ok db' (record { delivery = to_delivery d; event = e } ∷ rows)
prepend e d (err x) = err x

join_ready : Codec → Db → List DeliveryRow → Outcome (List ReadyWaitEventDelivery)
unfolding event_at
join_ready k db [] = ok db []
join_ready k db (d ∷ ds) =
    let rest = join_ready k db ds in
    elim (find? (event_at d.event_sequence) db.events) [
      | none ↦ rest
      | some e ↦
          if exists (λ w. wait_is d.instance_id d.wait_id w && is_matched w.state) db.waits
            && k.delivery_decodes d
            && k.event_decodes e
          then prepend e d rest
          else err (data_error "delivery")
    ]

pub read_ready_deliveries : Codec → String → Db → Outcome (List ReadyWaitEventDelivery)
unfolding join_ready
read_ready_deliveries k id db =
    if identifier id
    then join_ready k db (
        order_by before_sequence
          (select (λ d. str_eq d.instance_id id && delivery_ready d.state) db.deliveries))
    else err input_error
