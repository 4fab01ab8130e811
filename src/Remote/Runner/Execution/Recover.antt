-- ===== src/Remote/Runner/Execution/Recover.antt =====
-- src/remote/runner-store.ts, `recoverReceived`: the commands that a runner host has yet to execute.
use workflowd.Base.{
  String, Bool, true, false, ◌&&◌, ◌||◌, Option, none, some, List, [], ◌∷◌, ltb, ◌==◌, str_eq,
  select, exists, order_by, before_text,
}
use workflowd.Remote.Runner.{
  RemoteCommand, FenceDisposition, cancelled, InboxState, CurrentRow, InboxRow, Runner,
  at_generation, Codec,
}

abbrev pub is_open : InboxState → Bool
is_open InboxState.received = true
is_open _ = false

abbrev pub is_current : FenceDisposition → Bool
is_current FenceDisposition.current = true
is_current cancelled = false

abbrev pub bound_to : Option String → String → Bool
bound_to none id = false
bound_to (some other) id = str_eq other id

-- The `JOIN` of `recoverReceived`.
abbrev pub recovers : List CurrentRow → InboxRow → Bool
recovers currents row =
    is_open row.state
    && exists
        (λ c.
          at_generation row.job_id row.generation c
          && bound_to c.command_id row.command_id
          && is_current c.disposition)
        currents

abbrev pub before_received : InboxRow → InboxRow → Bool
before_received a b =
    ltb a.received_at b.received_at
    || (a.received_at == b.received_at && before_text a.command_id b.command_id)

-- A row that does not decode fails the whole read.
abbrev pub cons_decoded {ℓ} : {A : Type ℓ} → Option A → Option (List A) → Option (List A)
cons_decoded (some a) (some as') = some (a ∷ as')
cons_decoded _ _ = none

decode_commands : Codec → List InboxRow → Option (List RemoteCommand)
decode_commands k [] = some []
decode_commands k (r ∷ rs) = cons_decoded (k.decode_command r.envelope_json) (decode_commands k rs)

pub recover_received : Codec → Runner → Option (List RemoteCommand)
unfolding decode_commands
recover_received k db =
    decode_commands k (order_by before_received (select (recovers db.current) db.inbox))
