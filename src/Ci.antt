-- ===== src/Ci.antt =====
-- src/ci/store.ts: the watched commits, the completions that are delivered of them, and the log of
-- their states. A JSON column is the value that it encodes, so that two texts are equal where the
-- values are; `none` of a state's links is the key that is left out. `String(id)` is the parameter
-- `show`, and a run's or a row's number is a natural number.
pub mod Rows
pub mod Aggregate
pub mod Verdict
pub mod Log
mod Tests
use Prim.Native.String.{◌++◌ as ◌<>◌}
use workflowd.Base.{
  ℕ, suc, ◌+◌, min, String, Bool, true, false, not, ◌&&◌, ◌||◌, Option, none, some, List, [], ◌∷◌,
  ◌++◌, map, take, if◌then◌else◌, ltb, leb, ◌==◌, str_eq, before_text, select, find?, exists,
  update, order_by,
}
use workflowd.Ci.Rows.{
  CiTarget, CiRun, Conclusion, pending, success, failure, CiState, CiCompletion, TargetRow,
  EventRow, DeliveryRow, WebhookRow, CiDb,
}
use workflowd.Ci.Aggregate.{
  newer_run, first, named, latest_run, is_some, unfinished, passing, failed, is_nil, jobs_of,
  flat_map, aggregate,
}

abbrev pub target_is : CiTarget → TargetRow → Bool
target_is t row = str_eq row.repository t.repository && str_eq row.sha t.sha

abbrev pub event_is : CiTarget → EventRow → Bool
event_is t row = str_eq row.state.repository t.repository && str_eq row.state.sha t.sha

abbrev pub texts_eq : List String → List String → Bool
texts_eq [] [] = true
texts_eq [] (y ∷ ys) = false
texts_eq (x ∷ xs) [] = false
texts_eq (x ∷ xs) (y ∷ ys) = str_eq x y && texts_eq xs ys

abbrev pub links_eq : Option (List String) → Option (List String) → Bool
links_eq none none = true
links_eq (some xs) (some ys) = texts_eq xs ys
links_eq _ _ = false

abbrev pub conclusion_eq : Conclusion → Conclusion → Bool
conclusion_eq pending pending = true
conclusion_eq success success = true
conclusion_eq failure failure = true
conclusion_eq _ _ = false

abbrev pub same_state : CiState → CiState → Bool
same_state a b =
    str_eq a.repository b.repository
    && str_eq a.sha b.sha
    && conclusion_eq a.conclusion b.conclusion
    && texts_eq a.failing_jobs b.failing_jobs
    && links_eq a.run_links b.run_links

-- `INSERT INTO ci_events`.
abbrev pub log_state : CiState → CiDb → CiDb
log_state state db = record db {
  events =
      db.events ++ (record { sequence = db.next_sequence; state = state; published = false } ∷ []);
  next_sequence = suc db.next_sequence;
}

-- `watch`; `none` is its error.
abbrev pub rewatched : CiTarget → ℕ → List String → TargetRow → Bool
rewatched t installation required row =
    target_is t row
    && (not (texts_eq row.required required) || not (row.installation_id == installation))

abbrev pub rewatch : ℕ → List String → ℕ → TargetRow → TargetRow
rewatch installation required now row = record row {
  required = required;
  installation_id = installation;
  etag = none;
  next_poll = now;
}

abbrev pub pending_state : CiTarget → CiState
pending_state t = record {
  repository = t.repository;
  sha = t.sha;
  conclusion = pending;
  failing_jobs = [];
  run_links = none;
}

abbrev pub put_target : CiTarget → ℕ → List String → ℕ → List TargetRow → List TargetRow
put_target t installation required now rows =
    if exists (target_is t) rows
    then update (target_is t) (λ row. record row { expires_at = now + 86400000 }) rows
    else rows
      ++ (record {
        repository = t.repository;
        sha = t.sha;
        installation_id = installation;
        required = required;
        etag = none;
        next_poll = now;
        expires_at = now + 86400000;
      }
          ∷ [])

unfoldable pub watch : CiTarget → ℕ → List String → ℕ → CiDb → Option CiDb
watch t installation required now db =
    if is_nil required
    then none
    else (let changed = record db {
      targets =
          update (rewatched t installation required) (rewatch installation required now) db.targets;
    } in
        let logged =
          if exists (rewatched t installation required) db.targets
          then log_state (pending_state t) changed
          else changed in
        some (record logged { targets = put_target t installation required now logged.targets }))

-- `ingest`.
pub data Ingested : Type 0 where
  accepted duplicate : Ingested

unfoldable pub ingest : String → CiCompletion → String → ℕ → CiDb → CiDb × Ingested
ingest id event payload now db =
    if exists (λ (row : WebhookRow). str_eq row.delivery_id id) db.webhooks
    then (db, duplicate)
    else (
      record db {
        webhooks =
            db.webhooks
            ++ (record {
              delivery_id = id;
              event = event.source;
              payload = payload;
              received_at = now;
            }
                ∷ []);
        deliveries =
            db.deliveries ++ (record { delivery_id = id; event = event; published = false } ∷ []);
        targets =
            update (target_is (record { repository = event.repository; sha = event.sha }))
              (λ row. record row { next_poll = min row.next_poll now; etag = none }) db.targets;
      },
      accepted,
    )

-- `events` and `read`.
abbrev pub by_sequence : EventRow → EventRow → Bool
by_sequence a b = ltb a.sequence b.sequence

pub events_after : CiTarget → ℕ → CiDb → List EventRow
events_after t after db =
    take 100
      (order_by by_sequence (select (λ row. event_is t row && ltb after row.sequence) db.events))

unfoldable pub read : CiTarget → CiDb → Option EventRow
read t db = first (order_by (λ a b. by_sequence b a) (select (event_is t) db.events))

-- `snapshot`; `none` is the error of a target that is not watched.
abbrev pub run_link : (ℕ → String) → String → CiRun → String
run_link show repository run =
    "https://github.com/" <> repository <> "/actions/runs/" <> show run.id

abbrev pub requires : List String → CiRun → Bool
requires required run = exists (λ name. str_eq name run.name) required

unfoldable pub state_of : (ℕ → String) → CiTarget → List String → List CiRun → CiState
unfolding aggregate
state_of show t required runs = record {
  repository = t.repository;
  sha = t.sha;
  conclusion = (aggregate required runs).0;
  failing_jobs = (aggregate required runs).1;
  run_links = some (map (run_link show t.repository) (select (requires required) runs));
}

abbrev pub unchanged : Option EventRow → CiState → Bool
unchanged none state = false
unchanged (some row) state = same_state row.state state

abbrev pub polled : Option String → ℕ → TargetRow → TargetRow
polled etag now row = record row { etag = etag; next_poll = now + 60000 }

unfoldable pub snapshot :
    (ℕ → String) → CiTarget → List CiRun → Option String → ℕ → CiDb → Option CiDb
unfolding state_of read
snapshot show t runs etag now db = elim (find? (target_is t) db.targets) [
  | none ↦ none
  | some row ↦
      let state = state_of show t row.required runs in
      let logged = if unchanged (read t db) state then db else log_state state db in
      some (record logged { targets = update (target_is t) (polled etag now) logged.targets })
]

-- `due` and `defer`.
abbrev pub before_due : TargetRow → TargetRow → Bool
before_due a b =
    ltb a.next_poll b.next_poll
    || (a.next_poll == b.next_poll
        && (before_text a.repository b.repository
            || (str_eq a.repository b.repository && before_text a.sha b.sha)))

pub due : ℕ → CiDb → List TargetRow
due now db = take 1 (
    order_by before_due
      (select (λ row. leb row.next_poll now && ltb now row.expires_at) db.targets))

pub defer : CiTarget → ℕ → CiDb → CiDb
defer t until db = record db {
  targets = update (target_is t) (λ row. record row { next_poll = until }) db.targets;
}

-- `outbox`, `published`, `deliveryOutbox` and `deliveryPublished`.
pub outbox : CiDb → List EventRow
outbox db = take 100 (order_by by_sequence (select (λ row. not row.published) db.events))

pub publish_event : ℕ → CiDb → CiDb
publish_event sequence db = record db {
  events =
      update (λ row. row.sequence == sequence) (λ row. record row { published = true }) db.events;
}

pub delivery_outbox : CiDb → List DeliveryRow
delivery_outbox db = take 100 (
    order_by (λ a b. before_text a.delivery_id b.delivery_id)
      (select (λ row. not row.published) db.deliveries))

pub publish_delivery : String → CiDb → CiDb
publish_delivery id db = record db {
  deliveries =
      update (λ row. str_eq row.delivery_id id) (λ row. record row { published = true })
        db.deliveries;
}
