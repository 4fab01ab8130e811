-- ===== src/Store/Publications/Tests.antt =====
-- A publication that is current, one that is not, and the theorems at them.
use workflowd.Base.{ℕ, ◌≡◌, refl, true, false, none, some, List, [], ◌∷◌, update}
use workflowd.Store.Lease.{Row, WorkState}
use workflowd.Store.Publications.{
  PullRequestRow, ReviewJobRow, Publication, CompletePublicationInput, completed, stale, held,
  supersede, complete_publication, is_publication_current,
}
use workflowd.Store.Publications.Current.{outdated_superseded, completed_current}

abbrev pull : ℕ → PullRequestRow
pull generation = record {
  repository_id = 7;
  pull_request_number = 3;
  generation = generation;
  base_ref = "main";
  base_sha = "b0";
  head_sha = "h1";
  head_ref = "fix";
  head_repository_full_name = "acme/api";
  is_open = true;
  draft = false;
}

abbrev review : ReviewJobRow
review = record {
  is_review = true;
  repository_id = 7;
  pull_request_number = 3;
  generation = 4;
  review_request_number = 2;
}

abbrev row : Row Publication
row = record {
  id = 1;
  state = WorkState.leased;
  attempts = 1;
  max_attempts = 5;
  run_at = 10;
  lease_owner = some "worker-1";
  lease_until = some 120;
  last_error = none;
  updated_at = 20;
  entry = record {
    repository_id = 7;
    pull_request_number = 3;
    generation = 4;
    base_ref = "main";
    base_sha = "b0";
    expected_head_sha = "h1";
    head_ref = "fix";
    head_repository_full_name = "acme/api";
    review_request_number = 2;
  };
}

abbrev publishing : CompletePublicationInput
publishing = record {
  publication_id = 1;
  worker_id = "worker-1";
  completed_at = 60;
  published = true;
}

abbrev published_rows : List (Row Publication)
published_rows = (complete_publication (pull 4 ∷ []) (review ∷ []) publishing (row ∷ [])).0

publication_completed :
    complete_publication (pull 4 ∷ []) (review ∷ []) publishing (row ∷ [])
    ≡ (published_rows, completed)
unfolding complete_publication
publication_completed = refl

completed_current_example :
    (is_publication_current (pull 4 ∷ []) (review ∷ []) 1 "worker-1" 60 (row ∷ []) ≡ true)
    × (is_publication_current (pull 4 ∷ []) (review ∷ []) 1 "worker-1" 60 published_rows ≡ false)
completed_current_example =
    completed_current (pull 4 ∷ []) (review ∷ []) publishing (row ∷ []) published_rows
      publication_completed

outdated_superseded_example :
    complete_publication (pull 5 ∷ []) (review ∷ []) publishing (row ∷ [])
    ≡ (update (held publishing) (supersede 60) (row ∷ []), stale)
outdated_superseded_example =
    outdated_superseded (pull 5 ∷ []) (review ∷ []) publishing (row ∷ []) refl
