-- ===== src/Store/PullRequests/Reconcile.antt =====
-- src/store/pull-requests.ts: what a transition writes to the reconciliations.
use workflowd.Base.{
  ℕ, suc, Bool, true, false, ◌&&◌, ◌||◌, Option, none, some, [], ◌∷◌, ◌++◌, if◌then◌else◌, ltb,
  ◌==◌, exists, update,
}
use workflowd.Domain.Transition.{PullRequestData}
use workflowd.Store.Lease.{Row, ready}
use workflowd.Store.Work.{Reconciliation, WorkDb, is_active}

-- The observation is later than the watermark of the reconciliation.
abbrev pub after_received : ℕ → ℕ → Option ℕ → ℕ → Bool
after_received at sequence none previous = false
after_received at sequence (some received) previous =
    ltb received at || (received == at && ltb previous sequence)

abbrev pub after_watermark : ℕ → ℕ → Row Reconciliation → Bool
after_watermark at sequence row = elim row.entry.observation_sequence [
  | none ↦ true
  | some previous ↦ after_received at sequence row.entry.observation_received_at previous
]

abbrev pub reconciles : PullRequestData → Row Reconciliation → Bool
reconciles d row =
    row.entry.repository_id == d.repository.id
    && row.entry.pull_request_number == d.pull_request.number

abbrev pub reset_reconciliation : PullRequestData → ℕ → ℕ → Row Reconciliation → Row Reconciliation
reset_reconciliation d at sequence row = record row {
  state = ready;
  attempts = 0;
  run_at = at;
  lease_owner = none;
  lease_until = none;
  last_error = none;
  updated_at = at;
  entry = record row.entry {
    installation_id = d.installation_id;
    repository_full_name = d.repository.full_name;
    observation_received_at = some at;
    observation_sequence = some sequence;
  };
}

abbrev pub new_reconciliation : PullRequestData → ℕ → ℕ → ℕ → Row Reconciliation
new_reconciliation d at sequence id = record {
  id = id;
  state = ready;
  attempts = 0;
  max_attempts = 5;
  run_at = at;
  lease_owner = none;
  lease_until = none;
  last_error = none;
  updated_at = at;
  entry = record {
    installation_id = d.installation_id;
    repository_id = d.repository.id;
    repository_full_name = d.repository.full_name;
    pull_request_number = d.pull_request.number;
    observation_received_at = some at;
    observation_sequence = some sequence;
    created_at = at;
  };
}

-- The upsert of the branch `RequestReconciliation`.
unfoldable pub enqueue_reconciliation : PullRequestData → ℕ → ℕ → WorkDb → WorkDb
enqueue_reconciliation d at sequence db =
    if exists (reconciles d) db.reconciliations
    then record db {
      reconciliations =
          update (λ r. reconciles d r && after_watermark at sequence r)
            (reset_reconciliation d at sequence) db.reconciliations;
    }
    else record db {
      reconciliations =
          db.reconciliations ++ (new_reconciliation d at sequence db.next_reconciliation ∷ []);
      next_reconciliation = suc db.next_reconciliation;
    }

-- The two updates of an applied observation: an active reconciliation runs again, and every one
-- gets the watermark.
abbrev pub restart : ℕ → Row Reconciliation → Row Reconciliation
restart at row = record row {
  state = ready;
  attempts = 0;
  run_at = at;
  lease_owner = none;
  lease_until = none;
  last_error = none;
  updated_at = at;
}

abbrev pub mark_observed : ℕ → ℕ → Row Reconciliation → Row Reconciliation
mark_observed at sequence row = record row {
  entry = record row.entry {
    observation_received_at = some at;
    observation_sequence = some sequence;
  };
}

unfoldable pub observe : PullRequestData → ℕ → ℕ → WorkDb → WorkDb
observe d at sequence db = record db {
  reconciliations =
      update (λ r. reconciles d r && after_watermark at sequence r) (mark_observed at sequence)
        (update (λ r. reconciles d r && is_active r.state && after_watermark at sequence r)
          (restart at) db.reconciliations);
}
