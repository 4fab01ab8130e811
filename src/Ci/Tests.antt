-- ===== src/Ci/Tests.antt =====
-- A snapshot of src/ci/store.ts on a concrete table, and the theorems at those inputs.
use workflowd.Base.{ℕ, ◌≡◌, refl, String, true, Option, none, some, List, [], ◌∷◌, All}
use workflowd.Ci.Rows.{CiTarget, CiRun, success, TargetRow, EventRow, CiDb}
use workflowd.Ci.Aggregate.{aggregate}
use workflowd.Ci.{state_of, same_state, read, snapshot}
use workflowd.Ci.Verdict.{newest_passes, aggregate_success}
use workflowd.Ci.Log.{snapshot_reads, snapshot_again}

abbrev run : ℕ → String → String → CiRun
run id name conclusion = record {
  id = id;
  name = name;
  attempt = 1;
  status = "completed";
  conclusion = some conclusion;
  failing_jobs = [];
}

abbrev required : List String
required = "build" ∷ "test" ∷ []

-- The failure of the build was made good by a later run.
abbrev runs : List CiRun
runs = run 1 "build" "failure" ∷ run 2 "test" "success" ∷ run 3 "build" "success" ∷ []

runs-succeed : (aggregate required runs).0 ≡ success
unfolding aggregate
runs-succeed = refl

aggregate_success_example : All (λ name. newest_passes runs name ≡ true) required
aggregate_success_example = aggregate_success required runs runs-succeed

abbrev target : CiTarget
target = record { repository = "acme/api"; sha = "h1" }

abbrev watched : TargetRow
watched = record {
  repository = "acme/api";
  sha = "h1";
  installation_id = 1;
  required = required;
  etag = none;
  next_poll = 0;
  expires_at = 1000;
}

abbrev tables : CiDb
tables = record {
  targets = watched ∷ [];
  events = [];
  deliveries = [];
  webhooks = [];
  next_sequence = 1;
}

abbrev show : ℕ → String
show n = "1"

snapshot_reads_example :
    (db : CiDb) × (event : EventRow) × (snapshot show target runs none 10 tables ≡ some db)
    × (read target db ≡ some event)
    × (same_state event.state (state_of show target required runs) ≡ true)
snapshot_reads_example = snapshot_reads show target runs none 10 tables watched refl tt

abbrev or_tables : Option CiDb → CiDb
or_tables none = tables
or_tables (some db) = db

abbrev taken : CiDb
taken = or_tables (snapshot show target runs none 10 tables)

snapshot-taken : snapshot show target runs none 10 tables ≡ some taken
unfolding snapshot
snapshot-taken = refl

snapshot_again_example :
    (db : CiDb) × (snapshot show target runs (some "e") 20 taken ≡ some db)
    × (db.events ≡ taken.events)
snapshot_again_example =
    snapshot_again show target runs none (some "e") 10 20 tables taken watched refl tt
      snapshot-taken
