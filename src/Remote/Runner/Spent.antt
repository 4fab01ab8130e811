-- ===== src/Remote/Runner/Spent.antt =====
-- An execution of src/remote/runner-store.ts that is claimed stays claimed.
use mathlib.Core.Bool.{false≢true}
use workflowd.Base.{
  ℕ, ◌≡◌, refl, sym, ap, ◌∙◌, inl, inr, String, Bool, true, false, ◌&&◌, Option, none, some, List,
  [], ◌∷◌, ◌++◌, arith, str_eq, eq_iff, find?, exists, update, Bool-cases, Option-cases,
  exists-update, exists-update_self, exists-append, exists-find?, exists-All, All-of,
}
use workflowd.Remote.Runner.{
  ClaudeResumeJob, CommandKind, probe, claude_resume, RemoteCommand, RemoteHostMessage, command,
  RunnerDeliveryInput, InboxRow, Runner, inbox_is, delivery_is, current_of, Codec,
}
use workflowd.Remote.Runner.Batch.{
  record_delivery, record_deliveries, replay_delivery, record_message, record_command, record_fence,
  inbox_row, changed, initial_disposition,
}
use workflowd.Remote.Runner.Execution.{
  execute_probe, probe_row, Outcome, pending, ended, unspent, spend, spend_row, outbox_of,
  recovered, resume_kind, starts_kind, open_row, ready_row, execute_claude_resume, settle,
  first_resume, replay_resume, store_result,
}

-- The command is recorded and its execution is not to be claimed any more.
abbrev pub IsSpent : String → List InboxRow → Type 0
IsSpent id rows = (exists (inbox_is id) rows ≡ true) × (exists (unspent id) rows ≡ false)

still_spent :
    (id : String) (p : InboxRow → Bool) (f : InboxRow → InboxRow)
    → ((r : InboxRow) → unspent id r ≡ false → unspent id (f r) ≡ false)
    → (rows : List InboxRow) → exists (unspent id) rows ≡ false
    → exists (unspent id) (update p f rows) ≡ false
still_spent id p f spent [] u = refl
still_spent id p f spent (r ∷ rs) u = ground (arith, spent r, still_spent id p f spent rs)

pub update-IsSpent :
    (id : String) (p : InboxRow → Bool) (f : InboxRow → InboxRow)
    → ((r : InboxRow) → (f r).command_id ≡ r.command_id)
    → ((r : InboxRow) → unspent id r ≡ false → unspent id (f r) ≡ false)
    → (rows : List InboxRow) → IsSpent id rows
    → IsSpent id (update p f rows)
update-IsSpent id p f same spent rows (h, u) = (
  exists-update (inbox_is id) p f (λ r. ap (λ n. str_eq n id) (same r)) rows ∙ h,
  still_spent id p f spent rows u,
)

append-IsSpent :
    (id : String) (row : InboxRow) (rows : List InboxRow)
    → exists (inbox_is row.command_id) rows ≡ false
    → IsSpent id rows
    → IsSpent id (rows ++ (row ∷ []))
append-IsSpent id row rows free (h, u) = elim (Bool-cases (str_eq row.command_id id)) [
  | inl e ↦ absurd (
      false≢true
        (sym free ∙ ap (λ n. exists (inbox_is n) rows) ((eq_iff row.command_id id).0 e) ∙ h))
  | inr e ↦ ground (
    arith,
    exists-append (inbox_is id) rows (row ∷ []),
    exists-append (unspent id) rows (row ∷ []),
  )
]

-- Recording a delivery leaves the inbox, or adds the row of a command that it does not have.
record_command-IsSpent :
    (k : Codec) (host : String) (d : RunnerDeliveryInput) (c : RemoteCommand) (hash : String)
    (at : ℕ) (id : String) (db : Runner)
    → IsSpent id db.inbox
    → IsSpent id (record_command k host d c hash at db).0.inbox
unfolding record_command
record_command-IsSpent k host d c hash at id db s =
    elim (Option-cases (find? (inbox_is c.command_id) db.inbox)) [
      | inl e ↦
          rw (e, record_command)
            (append-IsSpent id
              (inbox_row c (k.stringify c)
                (initial_disposition host c (find? (current_of c.job_id) db.current) at) at)
              db.inbox
              (exists-find? (inbox_is c.command_id) db.inbox
                ∙ ap (λ o. elim o [ none ↦ false | some a ↦ true ]) e)
              s)
      | inr (row, e) ↦ rw (e, record_command) s
    ]

record_message-IsSpent :
    (k : Codec) (host : String) (d : RunnerDeliveryInput) (m : Option RemoteHostMessage)
    (hash : String) (at : ℕ) (id : String) (db : Runner)
    → IsSpent id db.inbox
    → IsSpent id (record_message k host d m hash at db).0.inbox
unfolding record_message record_fence
record_message-IsSpent k host d none hash at id db s = s
record_message-IsSpent k host d (some (RemoteHostMessage.fence f)) hash at id db s =
    elim (Bool-cases (str_eq f.host_id host)) [ inl e ↦ rw e s | inr e ↦ rw e s ]
record_message-IsSpent k host d (some (command c)) hash at id db s =
    record_command-IsSpent k host d c hash at id db s

record_delivery-IsSpent :
    (k : Codec) (host : String) (d : RunnerDeliveryInput) (at : ℕ) (id : String) (db : Runner)
    → IsSpent id db.inbox
    → IsSpent id (record_delivery k host d at db).0.inbox
unfolding record_delivery replay_delivery
record_delivery-IsSpent k host d at id db s =
    elim (Option-cases (find? (delivery_is d.delivery_id) db.deliveries)) [
      | inl e ↦
          rw (e, record_delivery)
            (record_message-IsSpent k host d d.message (k.sha256 d.bytes) at id db s)
      | inr (row, e) ↦
          rw (e, record_delivery)
            (elim (Bool-cases (changed (k.sha256 d.bytes) d row)) [
              | inl c ↦ rw c s
              | inr c ↦ rw c s
            ])
    ]

pub record_deliveries-IsSpent :
    (k : Codec) (host : String) (ds : List RunnerDeliveryInput) (at : ℕ) (id : String) (db : Runner)
    → IsSpent id db.inbox
    → IsSpent id (record_deliveries k host ds at db).0.inbox
unfolding record_deliveries
record_deliveries-IsSpent k host [] at id db s = s
record_deliveries-IsSpent k host (d ∷ ds) at id db s =
    record_deliveries-IsSpent k host ds at id (record_delivery k host d at db).0
      (record_delivery-IsSpent k host d at id db s)

store_result-IsSpent :
    (k : Codec) (c : RemoteCommand) (o : Outcome) (at : ℕ) (id : String) (db : Runner)
    → IsSpent id db.inbox
    → IsSpent id (settle k c o at db).0.inbox
unfolding store_result
store_result-IsSpent k c pending at id db s = s
store_result-IsSpent k c (ended answer) at id db s =
    elim (Bool-cases (exists (inbox_is c.command_id) db.inbox)) [
      | inl e ↦ rw e (
          update-IsSpent id (open_row c.command_id) ready_row (λ r. refl) (λ r u. ground arith)
            db.inbox s)
      | inr e ↦ rw e s
    ]

pub execute_probe-IsSpent :
    (k : Codec) (c : RemoteCommand) (at : ℕ) (id : String) (db : Runner)
    → IsSpent id db.inbox
    → IsSpent id (execute_probe k c at db).0.inbox
unfolding execute_probe
execute_probe-IsSpent k c at id db s = elim (Bool-cases (exists (inbox_is c.command_id) db.inbox)) [
  | inl e ↦ rw e (
      update-IsSpent id (open_row c.command_id) probe_row (λ r. refl) (λ r u. ground arith) db.inbox
        s)
  | inr e ↦ rw e s
]

first_resume-IsSpent :
    (k : Codec) (run : Option Outcome) (c : RemoteCommand) (at : ℕ) (id : String) (db : Runner)
    → IsSpent id db.inbox
    → IsSpent id (first_resume k run c at db).0.inbox
unfolding first_resume
first_resume-IsSpent k none c at id db s = s
first_resume-IsSpent k (some o) c at id db s = store_result-IsSpent k c o at id db s

replay_resume-IsSpent :
    (k : Codec) (recover : Option (ClaudeResumeJob → String → Outcome)) (job : ClaudeResumeJob)
    (c : RemoteCommand) (at : ℕ) (id : String) (db : Runner)
    → IsSpent id db.inbox
    → IsSpent id (replay_resume k recover job c at db).0.inbox
unfolding replay_resume
replay_resume-IsSpent k recover job c at id db s =
    elim (Option-cases (find? (outbox_of c.command_id) db.outbox)) [
      | inl e ↦
          rw (e, replay_resume)
            (store_result-IsSpent k c (recovered recover job c.command_id) at id db s)
      | inr (row, e) ↦ rw (e, replay_resume) s
    ]

-- Whatever is spent stays so, and a start spends the command's execution.
resume_kind-IsSpent :
    (k : Codec) (recover : Option (ClaudeResumeJob → String → Outcome)) (run : Option Outcome)
    (c : RemoteCommand) (kind : CommandKind) (at : ℕ) (id : String) (db : Runner)
    → IsSpent id db.inbox
    → IsSpent id (resume_kind k recover run c kind at db).0.inbox
unfolding resume_kind
resume_kind-IsSpent k recover run c probe at id db s = s
resume_kind-IsSpent k recover run c (claude_resume job) at id db s =
    elim (Bool-cases (exists (unspent c.command_id) db.inbox)) [
      | inl e ↦
          rw (e, resume_kind)
            (first_resume-IsSpent k run c at id (spend c.command_id db) (
              update-IsSpent id (unspent c.command_id) spend_row (λ r. refl) (λ r u. ground arith)
                db.inbox s))
      | inr e ↦ rw (e, resume_kind) (replay_resume-IsSpent k recover job c at id db s)
    ]

spend-IsSpent :
    (id : String) (db : Runner)
    → exists (unspent id) db.inbox ≡ true
    → IsSpent id (spend id db).inbox
spend-IsSpent id db h = (
  exists-update (inbox_is id) (unspent id) spend_row (λ r. refl) db.inbox
      ∙ exists-All (unspent id) (inbox_is id) db.inbox
          (All-of (λ r. unspent id r ≡ true → inbox_is id r ≡ true) (λ r h. ground arith) db.inbox)
          h,
  exists-update_self (unspent id) spend_row (λ r h. ground arith) db.inbox,
)

pub resume_kind-spends :
    (k : Codec) (recover : Option (ClaudeResumeJob → String → Outcome)) (run : Option Outcome)
    (c : RemoteCommand) (kind : CommandKind) (at : ℕ) (db : Runner)
    → starts_kind kind c.command_id db ≡ true
    → IsSpent c.command_id (resume_kind k recover run c kind at db).0.inbox
unfolding resume_kind
resume_kind-spends k recover run c probe at db h = absurd (false≢true h)
resume_kind-spends k recover run c (claude_resume job) at db h =
    rw (h, resume_kind)
      (first_resume-IsSpent k run c at c.command_id (spend c.command_id db)
        (spend-IsSpent c.command_id db h))

pub execute_claude_resume-IsSpent :
    (k : Codec) (recover : Option (ClaudeResumeJob → String → Outcome)) (run : Option Outcome)
    (c : RemoteCommand) (at : ℕ) (id : String) (db : Runner)
    → IsSpent id db.inbox
    → IsSpent id (execute_claude_resume k recover run c at db).0.inbox
unfolding execute_claude_resume
execute_claude_resume-IsSpent k recover run c at id db s =
    resume_kind-IsSpent k recover run c c.kind at id db s

pub starts_spent :
    (kind : CommandKind) (id other : String) (db : Runner)
    → IsSpent id db.inbox
    → (str_eq other id && starts_kind kind other db) ≡ false
starts_spent probe id other db s = ground arith
starts_spent (claude_resume job) id other db (h, u) =
    ground (arith, eq_iff other id, λ (e : other ≡ id). ap (λ n. exists (unspent n) db.inbox) e)
