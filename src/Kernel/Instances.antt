-- ===== src/Kernel/Instances.antt =====
-- src/kernel/event-store.ts, `createInstance`.
pub mod Tables
use workflowd.Base.{
  ℕ, suc, String, Bool, true, false, not, ◌&&◌, ◌||◌, Option, none, some, List, [], ◌∷◌, ◌++◌, map,
  if◌then◌else◌, ltb, leb, ◌==◌, str_eq, select, find?, exists, update, order_by, before_text,
}
use workflowd.Kernel.Db.{
  InstanceRow, EventCondition, EventRow, WaitRow, WaitState, DeliveryRow, DeliveryState, Db, Error,
  input_error, conflict, data_error, Outcome, ok, err, Codec, bounded_text, bounded_payload,
  max_identifier_bytes, max_type_bytes, max_source_bytes, same_condition, max_sequence, instance_is,
  wait_is, delivery_is, is_pending, is_matched, is_consumed, delivery_ready, delivery_consumed,
}
use workflowd.Kernel.Deliveries.{
  Status, fresh, duplicate, identifier, valid_condition, to_delivery, WaitEventDelivery,
  new_delivery, insert_delivery, insert_deliveries,
}

pub record WorkflowInstanceInput : Type 0 where
  pub instance_id : String
  pub workflow_type : String
  pub workflow_version : ℕ
  pub workflow_key : String
  pub payload_json : String
  pub created_at : ℕ

-- `createInstance`: a new instance starts behind every event that is recorded so far.
pub record CreateInstanceResult : Type 0 where
  pub status : Status
  pub event_cursor : ℕ
  pub created_at : ℕ

valid_instance : WorkflowInstanceInput → Bool
valid_instance i =
    identifier i.instance_id
    && bounded_text max_type_bytes i.workflow_type
    && ltb 0 i.workflow_version
    && identifier i.workflow_key
    && bounded_payload i.payload_json

abbrev same_instance : InstanceRow → WorkflowInstanceInput → Bool
same_instance row i =
    str_eq row.workflow_type i.workflow_type
    && row.workflow_version == i.workflow_version
    && str_eq row.workflow_key i.workflow_key
    && str_eq row.payload_json i.payload_json

new_instance : WorkflowInstanceInput → Db → InstanceRow
new_instance i db = record {
  instance_id = i.instance_id;
  workflow_type = i.workflow_type;
  workflow_version = i.workflow_version;
  workflow_key = i.workflow_key;
  payload_json = i.payload_json;
  event_cursor = max_sequence db.events;
  created_at = i.created_at;
}

unfoldable pub stored_instance :
    Codec → WorkflowInstanceInput → Db → Option InstanceRow → Outcome CreateInstanceResult
unfolding new_instance
stored_instance k i db none =
    ok (record db { instances = db.instances ++ new_instance i db ∷ [] })
      (record { status = fresh; event_cursor = max_sequence db.events; created_at = i.created_at })
stored_instance k i db (some row) =
    if not (k.instance_decodes row)
    then err (data_error "instance")
    else (if same_instance row i
        then ok db (record {
          status = duplicate;
          event_cursor = row.event_cursor;
          created_at = row.created_at;
        })
        else err (conflict "instance"))

unfoldable pub create_instance : Codec → WorkflowInstanceInput → Db → Outcome CreateInstanceResult
unfolding valid_instance stored_instance
create_instance k i db =
    if valid_instance i
    then stored_instance k i db (find? (instance_is i.instance_id) db.instances)
    else err input_error
