-- ===== src/Kernel/Db.antt =====
-- The kernel tables of src/store/migrations.ts as lists of rows in insertion order, and the
-- transaction discipline of src/kernel. Instants are milliseconds; the ISO texts that the tables
-- hold compare as they do. A payload is its canonical JSON text, which the tables store and the
-- code compares.
use Prim.Native.String.{len}
use workflowd.Base.{
  ℕ, String, Bool, true, false, ◌&&◌, Option, List, [], ◌∷◌, ltb, leb, ◌==◌, str_eq, max,
}

pub record InstanceRow : Type 0 where
  pub instance_id : String
  pub workflow_type : String
  pub workflow_version : ℕ
  pub workflow_key : String
  pub payload_json : String
  pub event_cursor : ℕ
  pub created_at : ℕ

pub record EventCondition : Type 0 where
  pub type : String
  pub version : ℕ
  pub key : String
  pub correlation : String

pub record EventRow : Type 0 where
  pub sequence : ℕ
  pub source : String
  pub source_event_id : String
  pub condition : EventCondition
  pub payload_json : String
  pub recorded_at : ℕ

pub data WaitState : Type 0 where
  pending matched consumed cancelled : WaitState

pub record WaitRow : Type 0 where
  pub instance_id : String
  pub wait_id : String
  pub condition : EventCondition
  pub after_sequence : ℕ
  pub state : WaitState
  pub registered_at : ℕ

pub data DeliveryState : Type 0 where
  ready consumed cancelled : DeliveryState

pub record DeliveryRow : Type 0 where
  pub instance_id : String
  pub wait_id : String
  pub event_sequence : ℕ
  pub state : DeliveryState
  pub delivered_at : ℕ

pub data JobState : Type 0 where
  ready leased retry_scheduled succeeded failed operator_required data_error : JobState

pub data FailureCategory : Type 0 where
  transient permanent operator_required data_error : FailureCategory

pub record Lease : Type 0 where
  pub worker_id : String
  pub claim_token : String
  pub lease_until : ℕ

pub record Failure : Type 0 where
  pub category : FailureCategory
  pub version : ℕ
  pub json : String

-- The lease columns are set together or not at all, and so are the failure columns: the `CHECK`s
-- of the table say so.
pub record JobRow : Type 0 where
  pub job_id : String
  pub instance_id : String
  pub wait_id : String
  pub event_sequence : ℕ
  pub expected_cursor : ℕ
  pub input_version : ℕ
  pub input_json : String
  pub state : JobState
  pub attempt : ℕ
  pub max_attempts : ℕ
  pub run_at : ℕ
  pub created_at : ℕ
  pub lease : Option Lease
  pub failure : Option Failure
  pub updated_at : ℕ

pub record ResultRow : Type 0 where
  pub result_id : String
  pub job_id : String
  pub attempt : ℕ
  pub worker_id : String
  pub claim_token : String
  pub lease_until : ℕ
  pub result_version : ℕ
  pub result_json : String
  pub completed_at : ℕ

pub data DispatchState : Type 0 where
  prepared publishing published completed superseded cancelled : DispatchState

-- The columns of `kernel_remote_dispatches` that the job store reads.
pub record DispatchRow : Type 0 where
  pub job_id : String
  pub attempt : ℕ
  pub state : DispatchState

pub record Db : Type 0 where
  pub instances : List InstanceRow
  pub events : List EventRow
  pub waits : List WaitRow
  pub deliveries : List DeliveryRow
  pub jobs : List JobRow
  pub results : List ResultRow
  pub dispatches : List DispatchRow

pub data Error : Type 0 where
  input_error lease_error : Error
  conflict data_error : String → Error

-- An operation runs in one transaction: an error rolls every write back.
pub data Outcome {ℓ} (A : Type ℓ) : Type ℓ where
  ok : Db → A → Outcome A
  err : Error → Outcome A

abbrev pub after {ℓ} : {A : Type ℓ} → Db → Outcome A → Db
after db (ok db' a) = db'
after db (err e) = db

-- The decoders of the Effect schema library, and `json_extract(…, '$.kind')` of SQLite.
pub record Codec : Type 0 where
  pub instance_decodes : InstanceRow → Bool
  pub event_decodes : EventRow → Bool
  pub wait_decodes : WaitRow → Bool
  pub delivery_decodes : DeliveryRow → Bool
  pub job_decodes : JobRow → Bool
  pub result_decodes : ResultRow → Bool
  pub kind_of : String → Option String

-- `boundedText(bytes)`: not empty, and at most so many bytes of UTF-8.
unfoldable pub bounded_text : ℕ → String → Bool
bounded_text bytes value = ltb 0 (len value) && leb (len value) bytes

abbrev pub max_identifier_bytes : ℕ
max_identifier_bytes = 256

abbrev pub max_type_bytes : ℕ
max_type_bytes = 128

abbrev pub max_source_bytes : ℕ
max_source_bytes = 128

abbrev pub max_payload_bytes : ℕ
max_payload_bytes = 65536

unfoldable pub bounded_payload : String → Bool
bounded_payload json = leb (len json) max_payload_bytes

abbrev pub same_condition : EventCondition → EventCondition → Bool
same_condition a b =
    str_eq a.type b.type
    && a.version == b.version
    && str_eq a.key b.key
    && str_eq a.correlation b.correlation

-- `COALESCE(MAX(sequence), 0)`.
abbrev pub max_sequence : List EventRow → ℕ
max_sequence [] = 0
max_sequence (e ∷ es) = max e.sequence (max_sequence es)

abbrev pub instance_is : String → InstanceRow → Bool
instance_is id row = str_eq row.instance_id id

abbrev pub wait_is : String → String → WaitRow → Bool
wait_is instance_id wait_id row = str_eq row.instance_id instance_id && str_eq row.wait_id wait_id

abbrev pub delivery_is : String → String → DeliveryRow → Bool
delivery_is instance_id wait_id row =
    str_eq row.instance_id instance_id && str_eq row.wait_id wait_id

abbrev pub is_pending : WaitState → Bool
is_pending pending = true
is_pending _ = false

abbrev pub is_matched : WaitState → Bool
is_matched matched = true
is_matched _ = false

abbrev pub is_consumed : WaitState → Bool
is_consumed consumed = true
is_consumed _ = false

abbrev pub delivery_ready : DeliveryState → Bool
delivery_ready ready = true
delivery_ready _ = false

abbrev pub delivery_consumed : DeliveryState → Bool
delivery_consumed consumed = true
delivery_consumed _ = false
