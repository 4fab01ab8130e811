-- ===== src/Kernel/Deliveries.antt =====
-- What the operations of src/kernel/event-store.ts share: statuses, the input bounds, and the
-- insertion of a delivery.
pub mod Cover
use workflowd.Base.{
  ℕ, suc, String, Bool, true, false, not, ◌&&◌, ◌||◌, Option, none, some, List, [], ◌∷◌, ◌++◌, map,
  if◌then◌else◌, ltb, leb, ◌==◌, str_eq, select, find?, exists, update, order_by, before_text,
}
use workflowd.Kernel.Db.{
  InstanceRow, EventCondition, EventRow, WaitRow, WaitState, DeliveryRow, DeliveryState, Db, Error,
  input_error, conflict, data_error, Outcome, ok, err, Codec, bounded_text, bounded_payload,
  max_identifier_bytes, max_type_bytes, max_source_bytes, same_condition, max_sequence, instance_is,
  wait_is, delivery_is, is_pending, is_matched, is_consumed, delivery_ready, delivery_consumed,
}

pub data Status : Type 0 where
  fresh duplicate : Status

pub record WaitEventDelivery : Type 0 where
  pub instance_id : String
  pub wait_id : String
  pub event_sequence : ℕ

abbrev pub to_delivery : DeliveryRow → WaitEventDelivery
to_delivery row = record {
  instance_id = row.instance_id;
  wait_id = row.wait_id;
  event_sequence = row.event_sequence;
}

abbrev pub identifier : String → Bool
identifier = bounded_text max_identifier_bytes

unfoldable pub valid_condition : EventCondition → Bool
valid_condition c =
    bounded_text max_type_bytes c.type
    && ltb 0 c.version
    && identifier c.key
    && identifier c.correlation

abbrev pub new_delivery : ℕ → ℕ → WaitRow → DeliveryRow
new_delivery sequence at wait = record {
  instance_id = wait.instance_id;
  wait_id = wait.wait_id;
  event_sequence = sequence;
  state = DeliveryState.ready;
  delivered_at = at;
}

-- `INSERT … ON CONFLICT (instance_id, wait_id) DO NOTHING`.
unfoldable pub insert_delivery : DeliveryRow → List DeliveryRow → List DeliveryRow
insert_delivery d ds = if exists (delivery_is d.instance_id d.wait_id) ds then ds else ds ++ d ∷ []

unfoldable pub insert_deliveries : List DeliveryRow → List DeliveryRow → List DeliveryRow
unfolding insert_delivery
insert_deliveries [] ds = ds
insert_deliveries (n ∷ ns) ds = insert_deliveries ns (insert_delivery n ds)

-- A ready delivery of the event to the wait.
abbrev pub delivers : ℕ → WaitRow → DeliveryRow → Bool
delivers sequence wait d =
    delivery_is wait.instance_id wait.wait_id d
    && d.event_sequence == sequence
    && delivery_ready d.state

-- The event is one that the wait waits for.
abbrev pub satisfies : WaitRow → EventRow → Bool
satisfies wait event =
    same_condition event.condition wait.condition && ltb wait.after_sequence event.sequence
