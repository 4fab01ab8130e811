-- ===== src/Store/Lease.antt =====
-- src/store/lease.ts: the lease queue over the table of commands, jobs, publications or
-- reconciliations. The part of a row that the queue does not touch is `E`. The candidate query is
-- the one of src/store/internal-claim-queries.ts, with what the query of src/store/currentness.ts
-- asks in addition as the parameter `extra`; `before_claim` is the hook of the configuration, and
-- `decode` its decoder.
pub mod Slack
pub mod Ends
pub mod Held
pub mod Reschedule
mod Tests
use workflowd.Base.{
  ℕ, zero, suc, ◌+◌, ◌-◌, max, String, Bool, true, false, not, ◌&&◌, ◌||◌, Option, none, some, List,
  [], ◌∷◌, if◌then◌else◌, ltb, leb, ◌==◌, str_eq, select, find?, exists, update, order_by,
}

pub data WorkState : Type 0 where
  ready leased retry_scheduled succeeded failed superseded data_error : WorkState

pub record Row (E : Type 0) : Type 0 where
  pub id : ℕ
  pub state : WorkState
  pub attempts : ℕ
  pub max_attempts : ℕ
  pub run_at : ℕ
  pub lease_owner : Option String
  pub lease_until : Option ℕ
  pub last_error : Option String
  pub updated_at : ℕ
  pub entry : E

pub record LeaseClaim : Type 0 where
  pub worker_id : String
  pub now : ℕ
  pub lease_duration_ms : ℕ

pub record RescheduleInput : Type 0 where
  pub id : ℕ
  pub worker_id : String
  pub failed_at : ℕ
  pub run_at : ℕ
  pub error : String
  pub max_attempts : ℕ

-- What the decoder makes of a row: a value, or the id and the message of its error.
pub data Decoded (V : Type 0) : Type 0 where
  decoded : V → Decoded V
  undecodable : ℕ → String → Decoded V

pub data Rescheduled : Type 0 where
  retried gave_up stale : Rescheduled

abbrev pub is_leased : WorkState → Bool
is_leased leased = true
is_leased _ = false

abbrev pub is_waiting : WorkState → Bool
is_waiting ready = true
is_waiting retry_scheduled = true
is_waiting _ = false

abbrev pub lease_over : ℕ → Option ℕ → Bool
lease_over now none = false
lease_over now (some until) = leb until now

abbrev pub lease_alive : ℕ → Option ℕ → Bool
lease_alive now none = false
lease_alive now (some until) = ltb now until

abbrev pub owned_by : String → Option String → Bool
owned_by worker none = false
owned_by worker (some owner) = str_eq owner worker

abbrev pub retry : WorkState → Rescheduled
retry failed = gave_up
retry _ = retried

module _ {E : Type 0} where
  abbrev pub id_is : ℕ → Row E → Bool
  id_is id r = r.id == id

  -- The guard that every write of a lease holder carries.
  abbrev pub holds : ℕ → String → ℕ → Row E → Bool
  holds id worker now r =
      id_is id r
      && is_leased r.state
      && owned_by worker r.lease_owner
      && lease_alive now r.lease_until

  -- A row whose lease ran out on its last attempt.
  abbrev pub spent : ℕ → Row E → Bool
  spent now r = is_leased r.state && lease_over now r.lease_until && leb r.max_attempts r.attempts

  abbrev pub expire : ℕ → Row E → Row E
  expire now r = record r {
    state = failed;
    lease_owner = none;
    lease_until = none;
    last_error = some "maximum attempts reached after lease expiry";
    updated_at = now;
  }

  abbrev pub take : LeaseClaim → Row E → Row E
  take i r = record r {
    state = leased;
    attempts = suc r.attempts;
    lease_owner = some i.worker_id;
    lease_until = some (i.now + i.lease_duration_ms);
    last_error = none;
    updated_at = i.now;
  }

  abbrev pub quarantine : ℕ → String → Row E → Row E
  quarantine now message r = record r {
    state = data_error;
    lease_owner = none;
    lease_until = none;
    last_error = some message;
    updated_at = now;
  }

  abbrev pub before_row : Row E → Row E → Bool
  before_row a b = ltb a.run_at b.run_at || (a.run_at == b.run_at && ltb a.id b.id)

  -- `reschedule`: the lease holder gives the row back, or gives it up.
  abbrev pub rescheduled_state : RescheduleInput → Row E → WorkState
  rescheduled_state i r = if leb i.max_attempts r.attempts then failed else retry_scheduled

  abbrev pub give_back : RescheduleInput → Row E → Row E
  give_back i r = record r {
    state = rescheduled_state i r;
    max_attempts = max r.attempts i.max_attempts;
    run_at = i.run_at;
    lease_owner = none;
    lease_until = none;
    last_error = some i.error;
    updated_at = i.failed_at;
  }

  unfoldable pub reschedule : RescheduleInput → List (Row E) → List (Row E) × Rescheduled
  reschedule i rows = (
    update (holds i.id i.worker_id i.failed_at) (give_back i) rows,
    elim (find? (holds i.id i.worker_id i.failed_at) rows) [
      | none ↦ stale
      | some r ↦ retry (rescheduled_state i r)
    ],
  )

  -- The tables after a row was taken, and after it was put aside.
  abbrev pub taken : LeaseClaim → Row E → List (Row E) → List (Row E)
  taken i r rows = update (id_is r.id) (take i) rows

  abbrev pub put_aside : LeaseClaim → ℕ → String → List (Row E) → List (Row E)
  put_aside i id message rows = update (holds id i.worker_id i.now) (quarantine i.now message) rows

  -- The attempts that the rows have left.
  pub slack : List (Row E) → ℕ
  slack [] = 0
  slack (r ∷ rs) = (r.max_attempts - r.attempts) + slack rs

module _ {E V : Type 0} (extra : ℕ → Row E → Bool) (before_claim : ℕ → List (Row E) → List (Row E))
    (decode : Row E → Decoded V) where
  abbrev pub claimable : ℕ → Row E → Bool
  claimable now r =
      (is_waiting r.state || (is_leased r.state && lease_over now r.lease_until))
      && leb r.run_at now
      && ltb r.attempts r.max_attempts
      && extra now r

  -- The row of `ORDER BY run_at ASC, id ASC LIMIT 1`.
  pub candidate : ℕ → List (Row E) → Option (Row E)
  candidate now rows = find? (claimable now) (order_by before_row rows)

  -- The `while (true)` on fuel; `none` is a run that the fuel cut off.
  pub claim_loop : ℕ → LeaseClaim → List (Row E) → Option (List (Row E) × Option V)
  unfolding candidate
  claim_loop zero i rows = none
  claim_loop (suc fuel) i rows = elim (candidate i.now rows) [
    | none ↦ some (rows, none)
    | some r ↦ elim (decode (take i r)) [
      | decoded v ↦ some (taken i r rows, some v)
      | undecodable id message ↦ claim_loop fuel i (put_aside i id message (taken i r rows))
    ]
  ]

  unfoldable pub claim : LeaseClaim → List (Row E) → Option (List (Row E) × Option V)
  unfolding claim_loop slack
  claim i rows =
      let ready_rows = update (spent i.now) (expire i.now) (before_claim i.now rows) in
      claim_loop (suc (slack ready_rows)) i ready_rows
