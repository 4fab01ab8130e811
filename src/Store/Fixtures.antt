-- ===== src/Store/Fixtures.antt =====
-- Tables of src/store at one moment, on which the tests of its modules run.
use workflowd.Base.{ℕ, String, false, none, some, [], ◌∷◌, units}
use workflowd.Domain.Transition.{PullState, PullRequestData}
use workflowd.Store.Lease.{Row, WorkState}
use workflowd.Store.Work.{JobKind, WorkDb}

abbrev pub lower : String → String
lower s = s

abbrev pub pull : String → String → PullRequestData
pull head updated = record {
  installation_id = 1;
  repository = record { id = 7; full_name = "acme/api"; name = "api"; owner = "acme" };
  pull_request = record {
    number = 3;
    author = "ada";
    author_association = some "MEMBER";
    base_sha = "b0";
    base_ref = "main";
    head_sha = head;
    head_ref = "fix";
    head_repository_full_name = "acme/api";
    draft = false;
    state = PullState.opened;
    updated_at = some (units updated);
  };
}

abbrev pub work : {E : Type 0} → ℕ → E → Row E
work id entry = record {
  id = id;
  state = WorkState.leased;
  attempts = 1;
  max_attempts = 3;
  run_at = 10;
  lease_owner = some "w1";
  lease_until = some 40;
  last_error = none;
  updated_at = 10;
  entry = entry;
}

-- Pull request 3 at generation 4, with a review and a publication under way.
abbrev pub tables : WorkDb
tables = record {
  pull_requests =
      record {
        tracked = pull "h1" "2026-01-01";
        automatic_review_skip_reason = none;
        generation = 4;
        updated_at = 10;
      }
      ∷ [];
  jobs =
      work 1 (record {
        kind = JobKind.review;
        installation_id = 1;
        repository_id = 7;
        repository_full_name = "acme/api";
        pull_request_number = 3;
        author = "ada";
        base_ref = "main";
        base_sha = "b0";
        expected_head_sha = "h1";
        head_ref = "fix";
        head_repository_full_name = "acme/api";
        generation = 4;
        review_request_number = 2;
        cancel_requested = false;
        created_at = 10;
      })
      ∷ [];
  publications =
      work 1 (record {
        repository_id = 7;
        pull_request_number = 3;
        generation = 4;
        base_ref = "main";
        base_sha = "b0";
        expected_head_sha = "h1";
        head_ref = "fix";
        head_repository_full_name = "acme/api";
        review_request_number = 2;
      })
      ∷ [];
  reconciliations =
      work 1 (record {
        installation_id = 1;
        repository_id = 7;
        repository_full_name = "acme/api";
        pull_request_number = 3;
        observation_received_at = some 10;
        observation_sequence = some 1;
        created_at = 10;
      })
      ∷ [];
  executions = [];
  next_job = 2;
  next_reconciliation = 2;
}
