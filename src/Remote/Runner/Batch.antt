-- ===== src/Remote/Runner/Batch.antt =====
-- src/remote/runner-store.ts, `recordBatch`: what a runner host records of a batch of messages.
use workflowd.Base.{
  ℕ, String, Bool, true, false, not, ◌&&◌, ◌||◌, Option, none, some, List, [], ◌∷◌, ◌++◌, max,
  if◌then◌else◌, ltb, leb, ◌==◌, str_eq, length, find?, exists, update,
}
use workflowd.Remote.Runner.{
  CommandKind, probe, claude_resume, RemoteCommand, FenceDisposition, cancelled, RemoteFence,
  RemoteHostMessage, command, Rejection, RunnerDeliveryInput, Disposition, wrong_host, expired,
  stale, InboxState, CurrentRow, InboxRow, DeliveryRow, Runner, Receipt, current_of, at_generation,
  inbox_is, delivery_is, is_received, Codec,
}

-- `replayDelivery`.
abbrev pub changed : String → RunnerDeliveryInput → DeliveryRow → Bool
changed hash d row =
    not (str_eq row.payload_sha256 hash) || not (row.payload_bytes == length d.bytes)

abbrev pub conflicted : DeliveryRow → DeliveryRow
conflicted row = record row { disposition = Disposition.conflict }

unfoldable pub replay_delivery :
    RunnerDeliveryInput → String → DeliveryRow → Runner → Runner × Receipt
replay_delivery d hash row db =
    if changed hash d row
    then (
      record db { deliveries = update (delivery_is d.delivery_id) conflicted db.deliveries },
      record {
        delivery_id = d.delivery_id;
        command_id = row.command_id;
        disposition = Disposition.conflict;
      },
    )
    else (
      db,
      record {
        delivery_id = d.delivery_id;
        command_id = row.command_id;
        disposition = row.disposition;
      },
    )

abbrev pub delivery_row :
    RunnerDeliveryInput → String → Option String → Disposition → ℕ → DeliveryRow
delivery_row d hash id disposition at = record {
  delivery_id = d.delivery_id;
  command_id = id;
  payload_sha256 = hash;
  payload_bytes = length d.bytes;
  disposition = disposition;
  received_at = at;
}

-- The insertion into `remote_runner_deliveries` that ends each branch, with its answer.
abbrev pub deliver :
    RunnerDeliveryInput → String → Option String → Disposition → ℕ → Runner → Runner × Receipt
deliver d hash id disposition at db = (
  record db { deliveries = db.deliveries ++ (delivery_row d hash id disposition at ∷ []) },
  record { delivery_id = d.delivery_id; command_id = id; disposition = disposition },
)

-- `recordRejectedDelivery`.
abbrev pub rejection_disposition : Option Rejection → Disposition
rejection_disposition (some Rejection.oversized) = Disposition.oversized
rejection_disposition _ = Disposition.malformed

-- `recordFenceDelivery`: the update of the job's current row.
abbrev pub fence_row : RemoteFence → ℕ → CurrentRow → CurrentRow
fence_row f at row = elim f.disposition [
  | cancelled ↦ record row { disposition = cancelled; command_id = none; updated_at = at }
  | FenceDisposition.current ↦ record row {
    disposition = FenceDisposition.current;
    updated_at = at;
  }
]

abbrev pub apply_fence : RemoteFence → ℕ → Runner → Runner
apply_fence f at db = record db {
  current = update (at_generation f.job_id f.generation) (fence_row f at) db.current;
}

unfoldable pub record_fence :
    String → RunnerDeliveryInput → RemoteFence → String → ℕ → Runner → Runner × Receipt
record_fence host d f hash at db =
    if str_eq f.host_id host
    then deliver d hash none Disposition.fence at (apply_fence f at db)
    else deliver d hash none Disposition.wrong_host at db

-- `initialCommandDisposition`.
abbrev pub payload_elsewhere : String → CommandKind → Bool
payload_elsewhere host probe = false
payload_elsewhere host (claude_resume job) = not (str_eq job.host_id host)

abbrev pub is_cancelled : FenceDisposition → Bool
is_cancelled cancelled = true
is_cancelled FenceDisposition.current = false

abbrev pub other_command : Option String → String → Bool
other_command none id = false
other_command (some other) id = not (str_eq other id)

abbrev pub against_current : RemoteCommand → Option CurrentRow → Disposition
against_current c none = stale
against_current c (some row) =
    if ltb c.generation row.generation || is_cancelled row.disposition
    then stale
    else (if other_command row.command_id c.command_id
        then Disposition.conflict
        else Disposition.received)

unfoldable pub initial_disposition : String → RemoteCommand → Option CurrentRow → ℕ → Disposition
initial_disposition host c row at =
    if not (str_eq c.host_id host) || payload_elsewhere host c.kind
    then wrong_host
    else (if leb c.expires_at at then expired else against_current c row)

abbrev pub inbox_state : Disposition → InboxState
inbox_state disposition =
    if is_received disposition then InboxState.received else InboxState.rejected

abbrev pub inbox_row : RemoteCommand → String → Disposition → ℕ → InboxRow
inbox_row c json disposition at = record {
  command_id = c.command_id;
  job_id = c.job_id;
  attempt = c.attempt;
  generation = c.generation;
  host_id = c.host_id;
  envelope_json = json;
  state = inbox_state disposition;
  execution_count = 0;
  received_at = at;
}

abbrev pub is_unbound : Option String → Bool
is_unbound none = true
is_unbound (some id) = false

abbrev pub bind_row : String → ℕ → CurrentRow → CurrentRow
bind_row id at row = record row { command_id = some id; updated_at = at }

-- The writes of a command that the inbox does not have.
abbrev pub accept_command : RemoteCommand → String → Disposition → ℕ → Runner → Runner
accept_command c json disposition at db = record db {
  inbox = db.inbox ++ (inbox_row c json disposition at ∷ []);
  current =
      if is_received disposition
      then update (λ r. at_generation c.job_id c.generation r && is_unbound r.command_id)
          (bind_row c.command_id at) db.current
      else db.current;
}

-- `recordCommandDelivery`.
unfoldable pub record_command :
    Codec → String → RunnerDeliveryInput → RemoteCommand → String → ℕ → Runner → Runner × Receipt
unfolding initial_disposition
record_command k host d c hash at db = elim (find? (inbox_is c.command_id) db.inbox) [
  | some row ↦
      deliver d hash (some c.command_id)
        (if str_eq row.envelope_json (k.stringify c)
          then Disposition.duplicate
          else Disposition.conflict)
        at db
  | none ↦
      let disposition = initial_disposition host c (find? (current_of c.job_id) db.current) at in
      deliver d hash (some c.command_id) disposition at
        (accept_command c (k.stringify c) disposition at db)
]

unfoldable pub record_message :
    Codec
    → String
    → RunnerDeliveryInput
    → Option RemoteHostMessage
    → String
    → ℕ
    → Runner
    → Runner × Receipt
unfolding record_command record_fence
record_message k host d none hash at db =
    deliver d hash none (rejection_disposition d.rejection) at db
record_message k host d (some (RemoteHostMessage.fence f)) hash at db =
    record_fence host d f hash at db
record_message k host d (some (command c)) hash at db = record_command k host d c hash at db

-- `recordDelivery`.
unfoldable pub record_delivery :
    Codec → String → RunnerDeliveryInput → ℕ → Runner → Runner × Receipt
unfolding replay_delivery record_message
record_delivery k host d at db =
    let hash = k.sha256 d.bytes in
    elim (find? (delivery_is d.delivery_id) db.deliveries) [
      | some row ↦ replay_delivery d hash row db
      | none ↦ record_message k host d d.message hash at db
    ]

unfoldable pub record_deliveries :
    Codec → String → List RunnerDeliveryInput → ℕ → Runner → Runner × List Receipt
record_deliveries k host [] at db = (db, [])
record_deliveries k host (d ∷ ds) at db =
    let (db', receipt) = record_delivery k host d at db in
    let (db'', receipts) = record_deliveries k host ds at db' in (db'', receipt ∷ receipts)

-- The `Map` of the highest generation of each job that the batch's own fences name, in the order
-- in which the jobs are first named.
abbrev pub raise_generation : String → ℕ → List (String × ℕ) → List (String × ℕ)
raise_generation job generation [] = (job, max 0 generation) ∷ []
raise_generation job generation ((other, g) ∷ rest) =
    let more = raise_generation job generation rest in
    if str_eq other job then (other, max g generation) ∷ rest else (other, g) ∷ more

abbrev pub raise_named : String → Option RemoteHostMessage → List (String × ℕ) → List (String × ℕ)
raise_named host none gs = gs
raise_named host (some (command c)) gs = gs
raise_named host (some (RemoteHostMessage.fence f)) gs =
    if str_eq f.host_id host then raise_generation f.job_id f.generation gs else gs

unfoldable pub fence_generations :
    String → List RunnerDeliveryInput → List (String × ℕ) → List (String × ℕ)
fence_generations host [] gs = gs
fence_generations host (d ∷ ds) gs = fence_generations host ds (raise_named host d.message gs)

-- The upsert of a job's current row, which only a higher generation changes.
abbrev pub raise_row : ℕ → ℕ → CurrentRow → CurrentRow
raise_row generation at row = record row {
  generation = generation;
  command_id = none;
  disposition = FenceDisposition.current;
  updated_at = at;
}

abbrev pub new_current : String → ℕ → ℕ → CurrentRow
new_current job generation at = record {
  job_id = job;
  generation = generation;
  command_id = none;
  disposition = FenceDisposition.current;
  updated_at = at;
}

abbrev pub raise_current : String → ℕ → ℕ → List CurrentRow → List CurrentRow
raise_current job generation at rows =
    if exists (current_of job) rows
    then update (λ r. current_of job r && ltb r.generation generation) (raise_row generation at)
        rows
    else rows ++ (new_current job generation at ∷ [])

abbrev pub raise_all : List (String × ℕ) → ℕ → List CurrentRow → List CurrentRow
raise_all [] at rows = rows
raise_all ((job, generation) ∷ gs) at rows = raise_all gs at (raise_current job generation at rows)

-- `recordBatch`.
unfoldable pub record_batch :
    Codec → String → List RunnerDeliveryInput → ℕ → Runner → Runner × List Receipt
unfolding fence_generations
record_batch k host ds at db =
    record_deliveries k host ds at
      (record db { current = raise_all (fence_generations host ds []) at db.current })
