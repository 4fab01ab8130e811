-- ===== src/Kernel/Events.antt =====
-- src/kernel/event-store.ts, `recordEvent`: the event log and the deliveries to pending waits.
pub mod Tables
pub mod Wakeup
pub mod Log
use workflowd.Base.{
  ℕ, suc, String, Bool, true, false, not, ◌&&◌, ◌||◌, Option, none, some, List, [], ◌∷◌, ◌++◌, map,
  if◌then◌else◌, ltb, leb, ◌==◌, str_eq, select, find?, exists, update, order_by, before_text,
}
use workflowd.Kernel.Db.{
  InstanceRow, EventCondition, EventRow, WaitRow, WaitState, DeliveryRow, DeliveryState, Db, Error,
  input_error, conflict, data_error, Outcome, ok, err, Codec, bounded_text, bounded_payload,
  max_identifier_bytes, max_type_bytes, max_source_bytes, same_condition, max_sequence, instance_is,
  wait_is, delivery_is, is_pending, is_matched, is_consumed, delivery_ready, delivery_consumed,
}
use workflowd.Kernel.Deliveries.{
  Status, fresh, duplicate, identifier, valid_condition, to_delivery, WaitEventDelivery,
  new_delivery, insert_delivery, insert_deliveries, delivers,
}

pub record RecordEventInput : Type 0 where
  pub source : String
  pub source_event_id : String
  pub condition : EventCondition
  pub payload_json : String
  pub recorded_at : ℕ

-- `recordEvent`.
pub record RecordEventResult : Type 0 where
  pub status : Status
  pub sequence : ℕ
  pub recorded_at : ℕ
  pub deliveries : List WaitEventDelivery

valid_event : RecordEventInput → Bool
valid_event i =
    bounded_text max_source_bytes i.source
    && identifier i.source_event_id
    && valid_condition i.condition
    && bounded_payload i.payload_json

abbrev pub event_is : String → String → EventRow → Bool
event_is source id row = str_eq row.source source && str_eq row.source_event_id id

abbrev same_event : EventRow → RecordEventInput → Bool
same_event row i =
    same_condition row.condition i.condition && str_eq row.payload_json i.payload_json

-- `(SELECT COALESCE(MAX(sequence), 0) + 1 FROM kernel_events)`.
abbrev pub next_sequence : Db → ℕ
next_sequence db = suc (max_sequence db.events)

abbrev pub new_event : RecordEventInput → ℕ → EventRow
new_event i sequence = record {
  sequence = sequence;
  source = i.source;
  source_event_id = i.source_event_id;
  condition = i.condition;
  payload_json = i.payload_json;
  recorded_at = i.recorded_at;
}

-- The pending waits without a delivery that an event of this condition and sequence satisfies.
abbrev pub awaits : EventCondition → ℕ → List DeliveryRow → WaitRow → Bool
awaits c sequence deliveries wait =
    not (exists (delivery_is wait.instance_id wait.wait_id) deliveries)
    && is_pending wait.state
    && same_condition wait.condition c
    && ltb wait.after_sequence sequence

abbrev pub match_wait : WaitRow → WaitRow
match_wait wait = record wait { state = WaitState.matched }

-- The database after the three writes of a new event.
unfoldable pub with_event : RecordEventInput → Db → Db
with_event i db =
    let sequence = next_sequence db in
    let chosen = select (awaits i.condition sequence db.deliveries) db.waits in
    let ds = insert_deliveries (map (new_delivery sequence i.recorded_at) chosen) db.deliveries in
    record db {
      events = db.events ++ new_event i sequence ∷ [];
      deliveries = ds;
      waits =
          update (λ w. is_pending w.state && exists (delivers sequence w) ds) match_wait db.waits;
    }

abbrev before_key : DeliveryRow → DeliveryRow → Bool
before_key a b =
    before_text a.instance_id b.instance_id
    || (str_eq a.instance_id b.instance_id && before_text a.wait_id b.wait_id)

-- The deliveries of an event, once their rows decode.
event_deliveries : Codec → Db → RecordEventInput → ℕ → Outcome RecordEventResult
event_deliveries k db i sequence =
    let rows = order_by before_key (select (λ d. d.event_sequence == sequence) db.deliveries) in
    if exists (λ d. not (k.delivery_decodes d)) rows
    then err (data_error "delivery")
    else ok db (record {
      status = fresh;
      sequence = sequence;
      recorded_at = i.recorded_at;
      deliveries = map to_delivery rows;
    })

stored_event : Codec → RecordEventInput → Db → Option EventRow → Outcome RecordEventResult
unfolding event_deliveries
stored_event k i db none =
    let sequence = next_sequence db in
    let chosen = select (awaits i.condition sequence db.deliveries) db.waits in
    if exists (λ w. not (k.wait_decodes w)) chosen
    then err (data_error "wait")
    else event_deliveries k (with_event i db) i sequence
stored_event k i db (some row) =
    if not (k.event_decodes row)
    then err (data_error "event")
    else (if same_event row i
        then ok db (record {
          status = duplicate;
          sequence = row.sequence;
          recorded_at = row.recorded_at;
          deliveries = [];
        })
        else err (conflict "event"))

unfoldable pub record_event : Codec → RecordEventInput → Db → Outcome RecordEventResult
unfolding valid_event stored_event
record_event k i db =
    if valid_event i
    then stored_event k i db (find? (event_is i.source i.source_event_id) db.events)
    else err input_error
